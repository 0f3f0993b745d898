-- ===== src/Node/Merging.antt =====
-- What a merge leaves at each key and at each path.
use go_flexconf.Node.{
  Node, Fields, no_field, field, find_field, add_field, set_field, Items, merge_fields, merge_node,
  merge_option, scalar_node, map_node, seq_node, item, no_item, Origin,
}
use go_flexconf.Text.{Text, text_eq}
use go_flexconf.Base.{
  arith, if◌then◌else◌, none, refl, some, ◌≡◌, Bool-cases, Option, Option-cases, inl, inr, ◌∙◌,
  Bool, List, [], ap, false, subst, sym, true, ◌∷◌,
}
use go_flexconf.Text.Laws.{text_eq_iff}
use go_flexconf.Variant.{new}

pub find-add_field :
    (k n : Text) (v : Node) (fs : Fields)
    → find_field k fs ≡ none
    → find_field n (add_field k v fs) ≡ (if text_eq k n then some v else find_field n fs)
unfolding find_field add_field
find-add_field k n v no_field h = refl
find-add_field k n v (field j m fs) h =
    ground (arith, text_eq_iff j k, text_eq_iff j n, text_eq_iff k n, find-add_field k n v fs)

pub find-set_field :
    (k n : Text) (v m : Node) (fs : Fields)
    → find_field k fs ≡ some m
    → find_field n (set_field k v fs) ≡ (if text_eq k n then some v else find_field n fs)
unfolding find_field set_field
find-set_field k n v m no_field h = cc
find-set_field k n v m (field j w fs) h =
    ground (arith, text_eq_iff j k, text_eq_iff j n, text_eq_iff k n, find-set_field k n v m fs)

-- At every depth the keys of a map are distinct.
unfoldable mutual
  pub WellFormed : Node → Type 0
  WellFormed (scalar_node o s) = Unit
  WellFormed (map_node o fs) = FieldsDistinct fs
  WellFormed (seq_node o items) = ItemsWellFormed items

  pub FieldsDistinct : Fields → Type 0
  FieldsDistinct no_field = Unit
  FieldsDistinct (field k n fs) = (find_field k fs ≡ none) × WellFormed n × FieldsDistinct fs

  pub ItemsWellFormed : Items → Type 0
  ItemsWellFormed no_item = Unit
  ItemsWellFormed (item n items) = WellFormed n × ItemsWellFormed items

-- The override's node at a key, put into the map so far.
abbrev put_merged : Text → Node → Fields → Option Node → Fields
put_merged k n fs none = add_field k n fs
put_merged k n fs (some m) = set_field k (merge_node m n) fs

find-put_merged :
    (k n : Text) (v : Node) (fs : Fields)
    → find_field n (put_merged k v fs (find_field k fs))
      ≡ (if text_eq k n then merge_option (find_field k fs) (some v) else find_field n fs)
find-put_merged k n v fs = elim (Option-cases (find_field k fs)) [
  | inl absent ↦ rw absent (find-add_field k n v fs absent)
  | inr (m, there) ↦ rw there (find-set_field k n (merge_node m v) m fs there)
]

merge_option-none : (o : Option Node) → merge_option o none ≡ o
merge_option-none none = refl
merge_option-none (some n) = refl

-- Merging two maps is merging key by key: a key has what `merge_node` makes of the two values where
-- both maps have it, the value of the one map that has it, or none, if the keys of the override are
-- distinct.
pub find-merge_fields :
    (n : Text) (fs gs : Fields)
    → FieldsDistinct gs
    → find_field n (merge_fields fs gs) ≡ merge_option (find_field n fs) (find_field n gs)
unfolding FieldsDistinct find_field merge_fields
find-merge_fields n fs no_field d = elim (Option-cases (find_field n fs)) [
  | inl absent ↦ rw absent
  | inr (m, there) ↦ rw there
]
find-merge_fields n fs (field k v gs) d =
    find-merge_fields n (put_merged k v fs (find_field k fs)) gs d.2
    ∙ elim (Bool-cases (text_eq k n)) [
      | inl same ↦
          let same_key : k ≡ n = (text_eq_iff k n).0 same in
          let absent : find_field n gs ≡ none =
            subst (λ (j : Text). find_field j gs ≡ none) same_key d.0 in
          rw (find-put_merged k n v fs, same, absent)
            (merge_option-none (merge_option (find_field k fs) (some v))
              ∙ ap (λ (j : Text). merge_option (find_field j fs) (some v)) same_key)
      | inr other ↦ rw (find-put_merged k n v fs, other)
    ]

-- The node at a path of keys.
unfoldable pub at : List Text → Node → Option Node
unfolding find_field
at [] n = some n
at (k ∷ p) (map_node o fs) = elim (find_field k fs) [ none ↦ none | some m ↦ at p m ]
at (k ∷ p) n = none

abbrev pub is_map : Node → Bool
is_map (map_node o fs) = true
is_map n = false

-- The node says nothing of the path: it has maps along it, up to one that lacks the next key.
unfoldable pub Silent : List Text → Node → Type 0
unfolding find_field
Silent (k ∷ p) (map_node o fs) = elim (find_field k fs) [ none ↦ Unit | some m ↦ Silent p m ]
Silent p n = ⊥

pub find-WellFormed :
    (k : Text) (fs : Fields) {n : Node}
    → FieldsDistinct fs
    → find_field k fs ≡ some n
    → WellFormed n
unfolding find_field FieldsDistinct
find-WellFormed k no_field d h = cc
find-WellFormed k (field j m fs) {n} d h = elim (Bool-cases (text_eq j k)) [
  | inl same ↦
      let found : some m ≡ some n = rw same at h in
      let same_node : m ≡ n = cc in subst WellFormed same_node d.1
  | inr other ↦ find-WellFormed k fs d.2 (rw other at h)
]

merge_node-leaf : (base over : Node) → is_map over ≡ false → merge_node base over ≡ over
unfolding merge_node
merge_node-leaf base (map_node o gs) h = cc
merge_node-leaf (map_node o fs) (scalar_node p s) h = refl
merge_node-leaf (map_node o fs) (seq_node p s) h = refl
merge_node-leaf (scalar_node o t) (scalar_node p s) h = refl
merge_node-leaf (scalar_node o t) (seq_node p s) h = refl
merge_node-leaf (seq_node o t) (scalar_node p s) h = refl
merge_node-leaf (seq_node o t) (seq_node p s) h = refl

-- Below one key of the override.
abbrev at_option : List Text → Option Node → Option Node
at_option p none = none
at_option p (some m) = at p m

at-field :
    (k : Text) (p : List Text) (o : Origin) (fs : Fields)
    → at (k ∷ p) (map_node o fs) ≡ at_option p (find_field k fs)
unfolding at
at-field k p o fs = elim (Option-cases (find_field k fs)) [
  | inl absent ↦ rw (absent, at)
  | inr (m, there) ↦ rw (there, at)
]

at-merge_map :
    (k : Text) (p : List Text) (o o' : Origin) (fs gs : Fields)
    → FieldsDistinct gs
    → at (k ∷ p) (merge_node (map_node o fs) (map_node o' gs))
      ≡ at_option p (merge_option (find_field k fs) (find_field k gs))
unfolding merge_node
at-merge_map k p o o' fs gs d =
    at-field k p o' (merge_fields fs gs) ∙ ap (at_option p) (find-merge_fields k fs gs d)

at-override :
    (p : List Text) (base over : Node) {n : Node}
    → WellFormed over
    → at p over ≡ some n
    → is_map n ≡ false
    → at p (merge_node base over) ≡ some n
unfolding at WellFormed
at-override [] base over {n} w h leaf =
    let same : over ≡ n = cc in
    let is_leaf : is_map over ≡ false = ap is_map same ∙ leaf in
    ap some (merge_node-leaf base over is_leaf ∙ same)
at-override (k ∷ p) base (scalar_node o s) w h leaf = cc
at-override (k ∷ p) base (seq_node o s) w h leaf = cc
at-override (k ∷ p) (scalar_node o s) (map_node o' gs) w h leaf = unfold merge_node in h
at-override (k ∷ p) (seq_node o s) (map_node o' gs) w h leaf = unfold merge_node in h
at-override (k ∷ p) (map_node o fs) (map_node o' gs) {n} w h leaf =
    let below : at_option p (find_field k gs) ≡ some n = sym (at-field k p o' gs) ∙ h in
    at-merge_map k p o o' fs gs w ∙ elim (Option-cases (find_field k gs)) [
      | inl absent ↦ let gone : none ≡ some n = rw absent at below in cc
      | inr (m, there) ↦
          let inside : at p m ≡ some n = rw there at below in
          rw there (elim (Option-cases (find_field k fs)) [
            | inl new ↦ rw new inside
            | inr (b, old) ↦ rw old (at-override p b m (find-WellFormed k gs w there) inside leaf)
          ])
    ]

Silent-below :
    (k : Text) (p : List Text) (o : Origin) (gs : Fields) {m : Node}
    → Silent (k ∷ p) (map_node o gs)
    → find_field k gs ≡ some m
    → Silent p m
unfolding Silent
Silent-below k p o gs h there = rw (there, Silent) at h

at-base :
    (p : List Text) (base over : Node) {n : Node}
    → WellFormed over
    → Silent p over
    → at p base ≡ some n
    → at p (merge_node base over) ≡ some n
unfolding at WellFormed
at-base [] base over w q h = unfold Silent in absurd q
at-base (k ∷ p) base (scalar_node o s) w q h = unfold Silent in absurd q
at-base (k ∷ p) base (seq_node o s) w q h = unfold Silent in absurd q
at-base (k ∷ p) (scalar_node o s) (map_node o' gs) w q h = cc
at-base (k ∷ p) (seq_node o s) (map_node o' gs) w q h = cc
at-base (k ∷ p) (map_node o fs) (map_node o' gs) {n} w q h =
    let below : at_option p (find_field k fs) ≡ some n = sym (at-field k p o fs) ∙ h in
    at-merge_map k p o o' fs gs w ∙ elim (Option-cases (find_field k fs)) [
      | inl absent ↦ let gone : none ≡ some n = rw absent at below in cc
      | inr (b, old) ↦
          let inside : at p b ≡ some n = rw old at below in
          rw old (elim (Option-cases (find_field k gs)) [
            | inl absent ↦ rw absent inside
            | inr (m, there) ↦ rw there (
                at-base p b m (find-WellFormed k gs w there) (Silent-below k p o' gs q there)
                  inside)
          ])
    ]

-- A scalar or a sequence that stands at a path of the higher layer stands there in the merged tree,
-- and where the higher layer says nothing of a path, what the lower one has there stays, if no map of
-- the higher layer has a key twice.
pub at-merge_node :
    (p : List Text) (base over n : Node)
    → WellFormed over
    → ((at p over ≡ some n) → is_map n ≡ false → at p (merge_node base over) ≡ some n)
      × (Silent p over → at p base ≡ some n → at p (merge_node base over) ≡ some n)
at-merge_node p base over n w = (at-override p base over w, at-base p base over w)
