-- ===== src/Tests/Trees.antt =====
-- Two layers of a small configuration.
use go_flexconf.Node.{
  Node, Fields, YamlNode, map_node, scalar_node, field, no_field, from_yaml, mapping_node,
  looping_alias, pair, no_pair, yaml_scalar, merge_node, find_field, Scalar, at_line,
}
use go_flexconf.Node.Merging.{WellFormed, FieldsDistinct, at, at-merge_node, Silent, is_map}
use go_flexconf.Base.{none, String, [], false, refl, some, true, ℕ, ◌∷◌, ◌≡◌}
use go_flexconf.Errors.{err, ok, plain}
use go_flexconf.Text.{text}

abbrev leaf_of : String → Scalar
leaf_of v = record { value = text v; tag = text "!!str"; secret = false; substituted = false }

abbrev leaf : String → ℕ → String → Node
leaf file line v = scalar_node (at_line (text file) line) (leaf_of v)

abbrev yaml : ℕ → String → YamlNode
yaml line v = yaml_scalar line true (text v) []

abbrev base_yaml : YamlNode
base_yaml = mapping_node 1 (
    pair (text "db")
      (mapping_node 2 (pair (text "host") (yaml 2 "a") (pair (text "port") (yaml 3 "1") no_pair)))
      no_pair)

abbrev over_yaml : YamlNode
over_yaml =
    mapping_node 1
      (pair (text "db") (mapping_node 2 (pair (text "host") (yaml 2 "b") no_pair)) no_pair)

abbrev base_db : Fields
base_db = field (text "host") (leaf "base" 2 "a") (field (text "port") (leaf "base" 3 "1") no_field)

abbrev over_db : Fields
over_db = field (text "host") (leaf "over" 2 "b") no_field

abbrev base : Node
base =
    map_node (at_line (text "base") 1)
      (field (text "db") (map_node (at_line (text "base") 2) base_db) no_field)

abbrev over : Node
over =
    map_node (at_line (text "over") 1)
      (field (text "db") (map_node (at_line (text "over") 2) over_db) no_field)

parse_layers :
    (from_yaml (text "base") base_yaml ≡ some (ok base))
    × (from_yaml (text "over") over_yaml ≡ some (ok over))
unfolding from_yaml
parse_layers = (refl, refl)

duplicate_key :
    from_yaml []
      (mapping_node 1 (pair (text "k") (yaml 1 "a") (pair (text "k") (yaml 2 "b") no_pair)))
    ≡ some (err plain)
unfolding from_yaml
duplicate_key = refl

-- `a: &x {b: *x}`: the conversion does not end.
endless :
    from_yaml [] (
      mapping_node 1
        (pair (text "a") (mapping_node 1 (pair (text "b") looping_alias no_pair)) no_pair))
    ≡ none
unfolding from_yaml
endless = refl

over-Distinct : FieldsDistinct over_db
unfolding FieldsDistinct find_field
over-Distinct = (refl, tt, tt)

over-WellFormed : WellFormed over
unfolding WellFormed find_field
over-WellFormed = (refl, over-Distinct, tt)

at-merge_node_example :
    (at (text "db" ∷ text "host" ∷ []) over ≡ some (leaf "over" 2 "b")
      → is_map (leaf "over" 2 "b") ≡ false
      → at (text "db" ∷ text "host" ∷ []) (merge_node base over) ≡ some (leaf "over" 2 "b"))
    × (Silent (text "db" ∷ text "host" ∷ []) over
        → at (text "db" ∷ text "host" ∷ []) base ≡ some (leaf "over" 2 "b")
        → at (text "db" ∷ text "host" ∷ []) (merge_node base over) ≡ some (leaf "over" 2 "b"))
at-merge_node_example =
    at-merge_node (text "db" ∷ text "host" ∷ []) base over (leaf "over" 2 "b") over-WellFormed
