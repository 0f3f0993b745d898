-- ===== src/Load/Total.antt =====
-- A load comes to an end.
use go_flexconf.Include.Ending.{expand_includes-Ends, FiniteContents}
use go_flexconf.Node.Finite.{Finite, parse_yaml-Ends, if-Ends}
use go_flexconf.Fuel.{Ends, >>=-Ends}
use go_flexconf.Node.{map_node, scalar_node, seq_node, Node, YamlText, parse_yaml}
use go_flexconf.Base.{List, [], inl, inr, none, not, refl, some, ◌∷◌, ◌≡◌, ◌⊎◌, Option-cases, subst}
use go_flexconf.Include.{Contents, missing, unreadable, bytes}
use go_flexconf.Schema.{GoType}
use go_flexconf.Store.{Outcome, Store, failed}
use go_flexconf.Load.{
  Setup, layer_tree, load, onto, read_layer, read_layers, top_map, static, load_read, struct_of,
  validate_name,
}
use go_flexconf.Text.{Text}
use go_flexconf.Coerce.{Value}
use go_flexconf.Errors.{err, ok, plain, Result-cases}

top_map-Ends : (n : Node) → Ends (top_map n)
top_map-Ends (map_node o fs) = (ok (map_node o fs), refl)
top_map-Ends (scalar_node o sc) = (err plain, refl)
top_map-Ends (seq_node o items) = (err plain, refl)

-- No alias in a file of the layers or of the includes stands for a node around it.
abbrev pub FilesFinite : Setup → Type 0
FilesFinite setup =
    ((p : Text) → FiniteContents (setup.disk p))
    × ((p : Text) → FiniteContents (setup.files.read p))

layer_tree-Ends :
    (setup : Setup) (dir path : Text) (y : YamlText)
    → FilesFinite setup
    → Finite y
    → Ends (layer_tree setup dir path y)
unfolding layer_tree
layer_tree-Ends setup dir path y finite root =
    >>=-Ends (parse_yaml path y) _ (parse_yaml-Ends path y root) λ parsed.
      >>=-Ends (top_map parsed) _ (top_map-Ends parsed) λ tree.
        if-Ends (not (static setup.options)) _ _
          (>>=-Ends _ _ (expand_includes-Ends setup.files dir path tree finite.1) top_map-Ends)
          (ok tree, refl)

contents_cases :
    (c : Contents) → (c ≡ missing) ⊎ ((c ≡ unreadable) ⊎ ((y : YamlText) × (c ≡ bytes y)))
contents_cases missing = inl refl
contents_cases unreadable = inr (inl refl)
contents_cases (bytes y) = inr (inr (y, refl))

read_layer-Ends :
    (setup : Setup) (name dir : Text) → FilesFinite setup → Ends (read_layer setup name dir)
unfolding read_layer
read_layer-Ends setup name dir finite =
    let path = setup.files.join dir name in
    elim (contents_cases (setup.disk path)) [
      | inl absent ↦ simp (absent, read_layer) (ok none, refl)
      | inr (inl failing) ↦ simp (failing, read_layer) (err plain, refl)
      | inr (inr (y, found)) ↦
          simp (found, read_layer)
            (>>=-Ends _ _
              (layer_tree-Ends setup dir path y finite (subst FiniteContents found (finite.0 path)))
              λ tree. (ok (some tree), refl))
    ]

read_layers-Ends :
    (setup : Setup) (name : Text) (dirs : List Text)
    → FilesFinite setup
    → Ends (read_layers setup name dirs)
unfolding read_layers
read_layers-Ends setup name [] finite = (ok [], refl)
read_layers-Ends setup name (dir ∷ dirs) finite =
    >>=-Ends _ _ (read_layer-Ends setup name dir finite) λ found.
      >>=-Ends _ _ (read_layers-Ends setup name dirs finite)
        λ layers. (ok (onto found layers), refl)

-- Every load comes to an end, with an outcome, for any files that the layers and their includes may
-- have in which no alias stands for a node around it, and for any destination whose type does not
-- contain itself, if what it calls outside of the package comes to an end: the reads of files, the
-- resolvers and the methods of the destination's types.
pub load-total :
    (setup : Setup) (file : Text) (t : GoType) (v : Value) (s : Store)
    → FilesFinite setup
    → (o : Outcome) × (load setup file t v s ≡ some o)
unfolding load
load-total setup file t v s finite = elim (Result-cases (validate_name file)) [
  | inr (e, refused) ↦ (failed v s e, rw (refused, load) refl)
  | inl (u, named) ↦ elim (Option-cases (struct_of t)) [
    | inl other ↦ (failed v s plain, rw (named, other, load) refl)
    | inr ((name, ds), fits) ↦
        let (r, read) = read_layers-Ends setup file setup.dirs finite in
        (load_read setup name ds v s r, rw (named, fits, read, load) refl)
  ]
]
