-- ===== src/Schema/Merged.antt =====
-- The check of each layer's shape covers the merge of the layers.
use go_flexconf.Node.{map_node, scalar_node, seq_node}
use go_flexconf.Schema.{scalar_shape, any_shape, map_shape, seq_shape, check_map_kind}
use go_flexconf.Errors.{ok, >>=-eq-ok, Result, err}
use go_flexconf.Schema.{
  GoType, validate_keys, validate_shape, Shape, shape_of, scalar_shape, any_shape, map_shape,
  seq_shape,
}
use go_flexconf.Node.{
  field, no_field, add_field, set_field, find_field, Fields, Node, merge_fields, merge_node,
}
use go_flexconf.Text.Laws.{text_eq_iff}
use go_flexconf.Base.{
  Bool-cases, Option, Option-cases, inl, inr, none, some, some_injective, subst, sym, ◌∙◌, ◌≡◌,
}
use go_flexconf.Text.{Text, text_eq}

-- A tree has the shape of a type.
abbrev pub Fitting : GoType → Node → Type 0
Fitting t n = validate_shape n t ≡ ok tt

-- A child fits the type that its key has, if it has one.
abbrev ChildFits : (Text → Option GoType) → Text → Node → Type 0
ChildFits types k n = (t : GoType) → types k ≡ some t → Fitting t n

abbrev KeysFit : (Text → Option GoType) → Fields → Type 0
KeysFit types fs = validate_keys fs types ≡ ok tt

module _ (types : Text → Option GoType) where
  keys_split :
      (k : Text) (n : Node) (fs : Fields)
      → KeysFit types (field k n fs)
      → ChildFits types k n × KeysFit types fs
  unfolding validate_shape
  keys_split k n fs h = elim (Option-cases (types k)) [
    | inl free ↦ ((λ t e. let never : none ≡ some t = sym free ∙ e in cc), simp free at h)
    | inr (t, typed) ↦
        let (u, fits, rest) =
          >>=-eq-ok (validate_shape n t) (λ u. validate_keys fs types) (simp typed at h) in
        (
          (λ s e.
              let same : t ≡ s = some_injective (sym typed ∙ e) in
              subst (λ (s : GoType). Fitting s n) same fits),
          rest,
        )
  ]

  keys_join :
      (k : Text) (n : Node) (fs : Fields)
      → ChildFits types k n
      → KeysFit types fs
      → KeysFit types (field k n fs)
  unfolding validate_shape
  keys_join k n fs c h = elim (Option-cases (types k)) [
    | inl free ↦ simp free h
    | inr (t, typed) ↦ let fits = c t typed in simp (typed, fits) h
  ]

  add_field-KeysFit :
      (k : Text) (n : Node) (fs : Fields)
      → ChildFits types k n
      → KeysFit types fs
      → KeysFit types (add_field k n fs)
  unfolding add_field
  add_field-KeysFit k n no_field c h = keys_join k n no_field c h
  add_field-KeysFit k n (field j m fs) c h =
      let (d, rest) = keys_split j m fs h in
      keys_join j m (add_field k n fs) d (add_field-KeysFit k n fs c rest)

  set_field-KeysFit :
      (k : Text) (n : Node) (fs : Fields)
      → ChildFits types k n
      → KeysFit types fs
      → KeysFit types (set_field k n fs)
  unfolding set_field
  set_field-KeysFit k n no_field c h = h
  set_field-KeysFit k n (field j m fs) c h =
      let (d, rest) = keys_split j m fs h in
      elim (Bool-cases (text_eq j k)) [
        | inl same ↦ rw same (
            keys_join j n fs
              (λ t e. c t (subst (λ (i : Text). types i ≡ some t) ((text_eq_iff j k).0 same) e))
              rest)
        | inr other ↦
            rw other (keys_join j m (set_field k n fs) d (set_field-KeysFit k n fs c rest))
      ]

  find_field-ChildFits :
      (k : Text) (fs : Fields) {m : Node}
      → KeysFit types fs
      → find_field k fs ≡ some m
      → ChildFits types k m
  unfolding find_field
  find_field-ChildFits k no_field h e = cc
  find_field-ChildFits k (field j n fs) {m} h e =
      let (d, rest) = keys_split j n fs h in
      elim (Bool-cases (text_eq j k)) [
        | inl same ↦
            let here : n ≡ m = some_injective (rw same at e) in
            subst (λ (m : Node). ChildFits types k m) here
              (λ t typed.
                d t (subst (λ (i : Text). types i ≡ some t) (sym ((text_eq_iff j k).0 same)) typed))
        | inr other ↦ find_field-ChildFits k fs rest (rw other at e)
      ]

check_map_kind_mono :
    (f g h : (Text → Option GoType) → Result (Unit {0}))
    → ((types : Text → Option GoType) → f types ≡ ok tt → g types ≡ ok tt → h types ≡ ok tt)
    → (s : Shape) → check_map_kind s f ≡ ok tt
    → check_map_kind s g ≡ ok tt
    → check_map_kind s h ≡ ok tt
check_map_kind_mono f g h k scalar_shape b w = b
check_map_kind_mono f g h k any_shape b w = b
check_map_kind_mono f g h k (map_shape (ok types)) b w = k types b w
check_map_kind_mono f g h k (map_shape (err e)) b w = b
check_map_kind_mono f g h k (seq_shape elem) b w = b

mutual
  unfolding validate_shape merge_node

  node_fits :
      (base over : Node) (t : GoType)
      → Fitting t base
      → Fitting t over
      → Fitting t (merge_node base over)
  node_fits (map_node o fs) (map_node p gs) t b w =
      check_map_kind_mono (λ types. validate_keys fs types) (λ types. validate_keys gs types)
        (λ types. validate_keys (merge_fields fs gs) types) (λ types. fields_fit types fs gs)
        (shape_of t) b w
  node_fits (map_node o fs) (scalar_node p s) t b w = w
  node_fits (map_node o fs) (seq_node p s) t b w = w
  node_fits (scalar_node o s) n t b w = w
  node_fits (seq_node o s) n t b w = w

  fields_fit :
      (types : Text → Option GoType) (fs gs : Fields)
      → KeysFit types fs
      → KeysFit types gs
      → KeysFit types (merge_fields fs gs)
  fields_fit types fs no_field b w = b
  fields_fit types fs (field k n gs) b w =
      let (c, rest) = keys_split types k n gs w in
      elim (Option-cases (find_field k fs)) [
        | inl absent ↦
            rw absent
              (fields_fit types (add_field k n fs) gs (add_field-KeysFit types k n fs c b) rest)
        | inr (m, there) ↦ rw there (
            fields_fit types (set_field k (merge_node m n) fs) gs
              (set_field-KeysFit types k (merge_node m n) fs
                (λ t e. node_fits m n t (find_field-ChildFits types k fs b there t e) (c t e)) b)
              rest)
      ]

-- The merge of two trees that have the shape of a type has it too.
pub merge_node-Fitting :
    (t : GoType) (base over : Node)
    → Fitting t base
    → Fitting t over
    → Fitting t (merge_node base over)
merge_node-Fitting t base over = node_fits base over t
