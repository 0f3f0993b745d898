-- ===== src/Load/Shaped.antt =====
-- The check of the layers, one by one, is one of the tree that is bound.
use go_flexconf.Schema.Merged.{Fitting, merge_node-Fitting}
use go_flexconf.Errors.{>>=-eq-ok, ok}
use go_flexconf.Schema.{GoType, validate_shape}
use go_flexconf.Base.{List, [], map, some, some_injective, subst, ◌∷◌, ◌≡◌}
use go_flexconf.Node.{Node, merge_from, merge_node, merge_trees}
use go_flexconf.Load.{validate_layers}

merged_from-Fitting :
    (t : GoType) (tree : Node) (layers : List Node) {out : Node}
    → Fitting t tree
    → validate_layers layers t ≡ ok tt
    → merge_from (some tree) (map some layers) ≡ some out
    → Fitting t out
unfolding validate_layers
merged_from-Fitting t tree [] h k e = subst (λ (n : Node). Fitting t n) (some_injective e) h
merged_from-Fitting t tree (layer ∷ layers) h k e =
    let (u, fits, rest) = >>=-eq-ok (validate_shape layer t) (λ u. validate_layers layers t) k in
    merged_from-Fitting t (merge_node tree layer) layers (merge_node-Fitting t tree layer h fits)
      rest e

-- If every layer passes the check of its shape against a type, then so does the tree that they merge to:
-- nothing that the check of a file refuses comes back by merging files.
pub merge_trees-Fitting :
    (t : GoType) (layers : List Node) (tree : Node)
    → validate_layers layers t ≡ ok tt
    → merge_trees (map some layers) ≡ some tree
    → Fitting t tree
unfolding validate_layers
merge_trees-Fitting t [] tree k e = cc
merge_trees-Fitting t (layer ∷ layers) tree k e =
    let (u, fits, rest) = >>=-eq-ok (validate_shape layer t) (λ u. validate_layers layers t) k in
    merged_from-Fitting t layer layers fits rest e
