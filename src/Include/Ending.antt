-- ===== src/Include/Ending.antt =====
-- The expansion of includes comes to an end: an included file's tree can include more files, but
-- not at a greater depth than the cap.
use go_flexconf.Errors.{plain, err, err_ne_ok, ok, Result-cases, guard_passed, Result}
use go_flexconf.Fuel.{>>=-Ends, Ends, Fueled}
use go_flexconf.Base.{
  List, [], arith, false, inl, inr, leb, length, none, refl, some, suc, zero, ℕ, ◌++◌, ◌+◌, ◌∷◌,
  ◌≡◌, ◌≤◌, not, subst, Bool, Option, if◌then◌else◌, true, length-append,
}
use go_flexconf.Node.{
  Fields, Items, Node, Origin, Scalar, scalar_node, map_node, seq_node, field, item, no_field,
  no_item,
}
use go_flexconf.Node.Finite.{Finite, parse_yaml-Ends}
use go_flexconf.Include.{
  Contents, missing, unreadable, bytes, Files, check_include, escapes, expand, expand_fields,
  expand_includes, expand_items, expand_scalar, expand_tree, include_target, is_yaml_name,
  max_include_depth, seen_in, has_config, included, parsed,
}
use go_flexconf.Text.{Text, contains, text}
use go_flexconf.Template.{Segment, is_token, scan_tokens}

-- No alias of a file stands for a node around it.
abbrev pub FiniteContents : Contents → Type 0
FiniteContents missing = Unit
FiniteContents unreadable = Unit
FiniteContents (bytes y) = Finite y

-- What holds of a file that is included.
abbrev pub Allowed : Files → Text → List Text → Text → Type 0
Allowed files layer_dir chain target =
    (escapes files layer_dir target ≡ false)
    × (leb max_include_depth (length chain) ≡ false)
    × (seen_in target chain ≡ false)

pub check_include-Allowed :
    (files : Files) (layer_dir : Text) (chain : List Text) (path target : Text) {t : Text}
    → check_include files layer_dir chain path target ≡ ok (some t)
    → Allowed files layer_dir chain t
unfolding check_include
check_include-Allowed files layer_dir chain path target {t} h =
    let (yaml, h1) = guard_passed (not (is_yaml_name path)) _ h in
    let (inside, h2) = guard_passed (escapes files layer_dir target) _ h1 in
    let (shallow, h3) = guard_passed (leb max_include_depth (length chain)) _ h2 in
    let (fresh, h4) = guard_passed (seen_in target chain) _ h3 in
    let same : target ≡ t = cc in
    subst (Allowed files layer_dir chain) same (inside, shallow, fresh)

left_alone :
    (b : Bool) {r : Result (Option Text)} {t : Text}
    → (if b then ok none else r) ≡ ok (some t)
    → r ≡ ok (some t)
left_alone true h = cc
left_alone false h = h

included-Allowed :
    (files : Files) (layer_dir : Text) (chain : List Text) (o : Origin) (segs : List Segment)
    {t : Text}
    → included files layer_dir chain o segs ≡ ok (some t)
    → Allowed files layer_dir chain t
unfolding included
included-Allowed files layer_dir chain o [] h = cc
included-Allowed files layer_dir chain o (seg ∷ []) h =
    let (whole, checked) =
      guard_passed (not (is_token seg)) _ (left_alone (not (has_config (seg ∷ []))) h) in
    check_include-Allowed files layer_dir chain seg.path _ checked
included-Allowed files layer_dir chain o (seg ∷ next ∷ segs) h =
    absurd (err_ne_ok (left_alone (not (has_config (seg ∷ next ∷ segs))) h))

pub include_target-Allowed :
    (files : Files) (layer_dir : Text) (chain : List Text) (o : Origin) (s : Scalar) {t : Text}
    → include_target files layer_dir chain o s ≡ ok (some t)
    → Allowed files layer_dir chain t
unfolding include_target
include_target-Allowed files layer_dir chain o s {t} h =
    let scanning = left_alone (not (contains s.value (text "$(config:"))) h in
    elim (Result-cases (scan_tokens s.value)) [
      | inr (e, failed) ↦ absurd (err_ne_ok {e = e} (rw failed at scanning))
      | inl (segs, scanned) ↦ included-Allowed files layer_dir chain o segs (rw scanned at scanning)
    ]

module _ (expand_one : Origin → Scalar → Fueled Node)
    (end : (o : Origin) (s : Scalar) → Ends (expand_one o s)) where
  mutual
    unfolding expand_tree

    tree_ended : (n : Node) → Ends (expand_tree expand_one n)
    tree_ended (scalar_node o s) = end o s
    tree_ended (map_node o fs) = >>=-Ends _ _ (fields_ended fs) (λ gs. (ok (map_node o gs), refl))
    tree_ended (seq_node o items) =
        >>=-Ends _ _ (items_ended items) (λ more. (ok (seq_node o more), refl))

    fields_ended : (fs : Fields) → Ends (expand_fields expand_one fs)
    fields_ended no_field = (ok no_field, refl)
    fields_ended (field k n fs) =
        >>=-Ends _ _ (tree_ended n)
          λ m. >>=-Ends _ _ (fields_ended fs) λ gs. (ok (field k m gs), refl)

    items_ended : (items : Items) → Ends (expand_items expand_one items)
    items_ended no_item = (ok no_item, refl)
    items_ended (item n items) =
        >>=-Ends _ _ (tree_ended n)
          λ m. >>=-Ends _ _ (items_ended items) λ more. (ok (item m more), refl)

parsed-Ends : (target : Text) (c : Contents) → FiniteContents c → Ends (parsed target c)
unfolding parsed
parsed-Ends target missing h = (err plain, refl)
parsed-Ends target unreadable h = (err plain, refl)
parsed-Ends target (bytes y) h = parse_yaml-Ends target y h

expand_scalar-Ends :
    (files : Files) (layer_dir : Text) (chain : List Text)
    (expand_more : List Text → Node → Fueled Node)
    → ((t : Text) → FiniteContents (files.read t))
    → ((t : Text) (n : Node)
        → leb max_include_depth (length chain) ≡ false
        → Ends (expand_more (chain ++ t ∷ []) n))
    → (o : Origin) (s : Scalar) → Ends (expand_scalar files layer_dir chain expand_more o s)
unfolding expand_scalar
expand_scalar-Ends files layer_dir chain expand_more finite deeper o s =
    elim (Result-cases (include_target files layer_dir chain o s)) [
      | inr (e, failed) ↦ (err e, rw failed refl)
      | inl (none, left) ↦ (ok (scalar_node o s), rw left refl)
      | inl (some t, found) ↦ rw found (
          >>=-Ends (parsed t (files.read t)) _ (parsed-Ends t (files.read t) (finite t))
            λ tree. deeper t tree (include_target-Allowed files layer_dir chain o s found).1)
    ]

expand-Ends :
    (fuel : ℕ) (files : Files) (layer_dir : Text) (chain : List Text) (n : Node)
    → ((t : Text) → FiniteContents (files.read t))
    → max_include_depth ≤ length chain + fuel
    → Ends (expand (suc fuel) files layer_dir chain n)
unfolding expand
expand-Ends zero files layer_dir chain n finite h =
    tree_ended _
      (expand_scalar-Ends files layer_dir chain (λ longer tree. none) finite
        λ t tree shallow. absurd (ground arith))
      n
expand-Ends (suc fuel) files layer_dir chain n finite h =
    tree_ended _
      (expand_scalar-Ends files layer_dir chain
        (λ longer tree. expand (suc fuel) files layer_dir longer tree) finite
        λ t tree shallow.
          let longer = length-append chain (t ∷ []) in
          expand-Ends fuel files layer_dir (chain ++ t ∷ []) tree finite (omega arith))
      n

-- The expansion of the includes of any layer's tree comes to an end, with a tree or with an error,
-- whatever the files include, if no alias in them stands for a node around it: fuel for sixteen open
-- files is enough.
pub expand_includes-Ends :
    (files : Files) (layer_dir path : Text) (n : Node)
    → ((t : Text) → FiniteContents (files.read t))
    → Ends (expand_includes files layer_dir path n)
expand_includes-Ends files layer_dir path n finite =
    expand-Ends 15 files layer_dir (path ∷ []) n finite (omega arith)
