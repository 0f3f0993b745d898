-- ===== src/Node/Finite.antt =====
-- The conversion of a node of the YAML parser comes to an end where no alias stands for a node around
-- it.
use go_flexconf.Node.{
  YamlNode, YamlNodes, YamlPairs, YamlText, document_node, alias_node, looping_alias, mapping_node,
  sequence_node, yaml_scalar, unknown_node, no_node, node, no_pair, pair, malformed_yaml,
  blank_yaml, yaml_root, from_yaml, from_nodes, from_pairs, parse_yaml, find_field, is_some,
  add_field, at_line, map_node, no_field, Fields,
}
use go_flexconf.Fuel.{Ends, >>=-Ends, Fueled}
use go_flexconf.Text.{Text}
use go_flexconf.Errors.{ok, err, plain}
use go_flexconf.Base.{Bool, if◌then◌else◌, true, false, refl}

-- No alias stands for a node around it.
unfoldable mutual
  pub NoLoop : YamlNode → Type 0
  NoLoop (document_node ys) = NoLoops ys
  NoLoop (alias_node y) = NoLoop y
  NoLoop looping_alias = ⊥
  NoLoop (mapping_node line pairs) = PairsNoLoop pairs
  NoLoop (sequence_node line ys) = NoLoops ys
  NoLoop (yaml_scalar line quoted value tag) = Unit
  NoLoop unknown_node = Unit

  pub NoLoops : YamlNodes → Type 0
  NoLoops no_node = Unit
  NoLoops (node y ys) = NoLoop y × NoLoops ys

  pub PairsNoLoop : YamlPairs → Type 0
  PairsNoLoop no_pair = Unit
  PairsNoLoop (pair key y pairs) = NoLoop y × PairsNoLoop pairs

abbrev pub Finite : YamlText → Type 0
Finite malformed_yaml = Unit
Finite blank_yaml = Unit
Finite (yaml_root y) = NoLoop y

pub if-Ends : {A : Type 0} (b : Bool) (m k : Fueled A) → Ends m → Ends k → Ends (if b then m else k)
if-Ends true m k h g = h
if-Ends false m k h g = g

mutual
  unfolding from_yaml NoLoop

  node_ended : (file : Text) (y : YamlNode) → NoLoop y → Ends (from_yaml file y)
  node_ended file (document_node no_node) h = (ok (map_node (at_line file 0) no_field), refl)
  node_ended file (document_node (node y ys)) h = node_ended file y h.0
  node_ended file (alias_node y) h = node_ended file y h
  node_ended file looping_alias h = absurd h
  node_ended file (mapping_node line pairs) h =
      >>=-Ends _ _ (pairs_ended file pairs no_field h)
        λ fs. (ok (map_node (at_line file line) fs), refl)
  node_ended file (sequence_node line ys) h =
      >>=-Ends _ _ (nodes_ended file ys h) λ items. (ok _, refl)
  node_ended file (yaml_scalar line quoted value tag) h = (ok _, refl)
  node_ended file unknown_node h = (err plain, refl)

  nodes_ended : (file : Text) (ys : YamlNodes) → NoLoops ys → Ends (from_nodes file ys)
  nodes_ended file no_node h = (ok _, refl)
  nodes_ended file (node y ys) h =
      >>=-Ends _ _ (node_ended file y h.0)
        λ n. >>=-Ends _ _ (nodes_ended file ys h.1) λ items. (ok _, refl)

  pairs_ended :
      (file : Text) (pairs : YamlPairs) (fs : Fields)
      → PairsNoLoop pairs
      → Ends (from_pairs file pairs fs)
  pairs_ended file no_pair fs h = (ok fs, refl)
  pairs_ended file (pair key y pairs) fs h =
      if-Ends (is_some (find_field key fs)) _ _ (err plain, refl)
        (>>=-Ends _ _ (node_ended file y h.0) λ n. pairs_ended file pairs (add_field key n fs) h.1)

pub parse_yaml-Ends : (file : Text) (y : YamlText) → Finite y → Ends (parse_yaml file y)
unfolding parse_yaml
parse_yaml-Ends file malformed_yaml h = (err plain, refl)
parse_yaml-Ends file blank_yaml h = (ok (map_node (at_line file 0) no_field), refl)
parse_yaml-Ends file (yaml_root y) h = node_ended file y h
