-- ===== src/Node/Parsing.antt =====
-- What parsing and merging keep of a tree.
use go_flexconf.Node.{scalar_node, map_node, seq_node}
use go_flexconf.Node.{
  Node, Fields, Items, YamlNode, YamlNodes, YamlPairs, from_yaml, from_nodes, from_pairs, is_some,
  add_field, find_field, document_node, field, no_field, node, alias_node, looping_alias,
  mapping_node, sequence_node, yaml_scalar, pair, no_node, unknown_node, no_pair, merge_fields,
  merge_node, set_field,
}
use go_flexconf.Node.Merging.{
  WellFormed, FieldsDistinct, ItemsWellFormed, find-add_field, find-WellFormed, find-set_field,
}
use go_flexconf.Fuel.{>>=-eq-done, failed_ne_done, done, done_injective}
use go_flexconf.Base.{
  Bool-cases, Option, arith, false, inl, inr, none, refl, some, subst, ◌∙◌, ◌≡◌, Option-cases,
}
use go_flexconf.Text.{Text, text_eq}
use go_flexconf.Text.Laws.{text_eq_iff}

add-FieldsDistinct :
    (k : Text) (n : Node) (fs : Fields)
    → find_field k fs ≡ none
    → WellFormed n
    → FieldsDistinct fs
    → FieldsDistinct (add_field k n fs)
unfolding FieldsDistinct find_field add_field
add-FieldsDistinct k n no_field h w d = (refl, w, tt)
add-FieldsDistinct k n (field j m fs) h w d = elim (Bool-cases (text_eq j k)) [
  | inl same ↦ let found : some m ≡ none = rw same at h in cc
  | inr other ↦
      let absent : find_field k fs ≡ none = rw other at h in
      let apart : text_eq k j ≡ false = ground (arith, text_eq_iff j k, text_eq_iff k j, other) in
      (find-add_field k j n fs absent ∙ (rw apart d.0), d.1, add-FieldsDistinct k n fs absent w d.2)
]

not_there : (o : Option Node) → is_some o ≡ false → o ≡ none
not_there none h = refl
not_there (some n) h = cc

mutual
  unfolding from_yaml WellFormed

  node_parsed : (file : Text) (y : YamlNode) {n : Node} → from_yaml file y ≡ done n → WellFormed n
  node_parsed file (document_node no_node) h = subst WellFormed (done_injective h) tt
  node_parsed file (document_node (node y ys)) h = node_parsed file y h
  node_parsed file (alias_node y) h = node_parsed file y h
  node_parsed file looping_alias h = cc
  node_parsed file (mapping_node line pairs) h =
      let (fs, read, last) = >>=-eq-done (from_pairs file pairs no_field) _ h in
      subst WellFormed (done_injective last) (pairs_parsed file pairs no_field tt read)
  node_parsed file (sequence_node line ys) h =
      let (items, read, last) = >>=-eq-done (from_nodes file ys) _ h in
      subst WellFormed (done_injective last) (nodes_parsed file ys read)
  node_parsed file (yaml_scalar line quoted value tag) h = subst WellFormed (done_injective h) tt
  node_parsed file unknown_node h = absurd (failed_ne_done h)

  nodes_parsed :
      (file : Text) (ys : YamlNodes) {items : Items}
      → from_nodes file ys ≡ done items
      → ItemsWellFormed items
  nodes_parsed file no_node h = subst ItemsWellFormed (done_injective h) tt
  nodes_parsed file (node y ys) h =
      let (n, here, rest) = >>=-eq-done (from_yaml file y) _ h in
      let (items, there, last) = >>=-eq-done (from_nodes file ys) _ rest in
      subst ItemsWellFormed (done_injective last)
        (node_parsed file y here, nodes_parsed file ys there)

  pairs_parsed :
      (file : Text) (pairs : YamlPairs) (fs : Fields) {out : Fields}
      → FieldsDistinct fs
      → from_pairs file pairs fs ≡ done out
      → FieldsDistinct out
  pairs_parsed file no_pair fs d h = subst FieldsDistinct (done_injective h) d
  pairs_parsed file (pair key y pairs) fs d h = elim (Bool-cases (is_some (find_field key fs))) [
    | inl dup ↦ absurd (failed_ne_done (rw dup at h))
    | inr fresh ↦
        let (n, here, rest) = >>=-eq-done (from_yaml file y) _ (rw fresh at h) in
        pairs_parsed file pairs (add_field key n fs)
          (add-FieldsDistinct key n fs (not_there (find_field key fs) fresh)
            (node_parsed file y here) d)
          rest
  ]

set-FieldsDistinct :
    (k : Text) (n m : Node) (fs : Fields)
    → find_field k fs ≡ some m
    → WellFormed n
    → FieldsDistinct fs
    → FieldsDistinct (set_field k n fs)
unfolding FieldsDistinct find_field set_field
set-FieldsDistinct k n m no_field h w d = cc
set-FieldsDistinct k n m (field j v fs) h w d = elim (Bool-cases (text_eq j k)) [
  | inl same ↦ rw same (d.0, w, d.2)
  | inr other ↦
      let there : find_field k fs ≡ some m = rw other at h in
      let apart : text_eq k j ≡ false = ground (arith, text_eq_iff j k, text_eq_iff k j, other) in
      rw other (
        find-set_field k j n m fs there ∙ (rw apart d.0),
        d.1,
        set-FieldsDistinct k n m fs there w d.2,
      )
]

mutual
  unfolding merge_node WellFormed

  node_merged :
      (base over : Node) → WellFormed base → WellFormed over → WellFormed (merge_node base over)
  node_merged (map_node o fs) (map_node p gs) b w = fields_merged fs gs b w
  node_merged (map_node o fs) (scalar_node p s) b w = tt
  node_merged (map_node o fs) (seq_node p s) b w = w
  node_merged (scalar_node o t) (map_node p gs) b w = w
  node_merged (scalar_node o t) (scalar_node p s) b w = tt
  node_merged (scalar_node o t) (seq_node p s) b w = w
  node_merged (seq_node o t) (map_node p gs) b w = w
  node_merged (seq_node o t) (scalar_node p s) b w = tt
  node_merged (seq_node o t) (seq_node p s) b w = w

  fields_merged :
      (fs gs : Fields) → FieldsDistinct fs → FieldsDistinct gs → FieldsDistinct (merge_fields fs gs)
  fields_merged fs no_field d e = d
  fields_merged fs (field k n gs) d e = elim (Option-cases (find_field k fs)) [
    | inl absent ↦
        rw absent (fields_merged (add_field k n fs) gs (add-FieldsDistinct k n fs absent e.1 d) e.2)
    | inr (m, there) ↦ rw there (
        fields_merged (set_field k (merge_node m n) fs) gs
          (set-FieldsDistinct k (merge_node m n) m fs there
            (node_merged m n (find-WellFormed k fs d there) e.1) d)
          e.2)
  ]

-- A tree that is parsed has no key twice in any of its maps, and merging two such trees gives one.
pub parsed_and_merged-WellFormed :
    (file file' : Text) (y y' : YamlNode) {base over : Node}
    → from_yaml file y ≡ done base
    → from_yaml file' y' ≡ done over
    → WellFormed base × WellFormed (merge_node base over)
parsed_and_merged-WellFormed file file' y y' {base} {over} h h' =
    (node_parsed file y h, node_merged base over (node_parsed file y h) (node_parsed file' y' h'))
