-- ===== src/Node.antt =====
-- flexconf/node.go and flexconf/merge.go: the value tree of a configuration file, and the merge of the
-- layers. A map is its keys in order with their children. The node of the YAML parser is a tree, in
-- which an alias holds what it stands for, or is one that stands for a node around it, and `quoted` is
-- one of the four quoting styles.
pub mod Parsing
pub mod Finite
pub mod Merging
use go_flexconf.Text.{Text, text, text_eq}
use go_flexconf.Base.{Bool, List, Option, [], false, if◌then◌else◌, none, some, true, ℕ, ◌∷◌}
use go_flexconf.Errors.{err, plain}
use go_flexconf.Fuel.{Fueled, done, ◌>>=◌}

pub record Origin : Type 0 where
  pub file : Text
  pub line : ℕ

pub record Scalar : Type 0 where
  pub value : Text
  pub tag : Text
  pub secret : Bool
  pub substituted : Bool

mutual
  pub data Node : Type 0 where
    scalar_node : Origin → Scalar → Node
    map_node : Origin → Fields → Node
    seq_node : Origin → Items → Node

  pub data Fields : Type 0 where
    no_field : Fields
    field : Text → Node → Fields → Fields

  pub data Items : Type 0 where
    no_item : Items
    item : Node → Items → Items

mutual
  pub data YamlNode : Type 0 where
    document_node : YamlNodes → YamlNode
    alias_node : YamlNode → YamlNode
    looping_alias : YamlNode
    mapping_node : ℕ → YamlPairs → YamlNode
    sequence_node : ℕ → YamlNodes → YamlNode
    yaml_scalar : ℕ → Bool → Text → Text → YamlNode
    unknown_node : YamlNode

  pub data YamlNodes : Type 0 where
    no_node : YamlNodes
    node : YamlNode → YamlNodes → YamlNodes

  pub data YamlPairs : Type 0 where
    no_pair : YamlPairs
    pair : Text → YamlNode → YamlPairs → YamlPairs

-- What yaml.Unmarshal makes of a file's bytes: an error, a node of kind 0, or a node.
pub data YamlText : Type 0 where
  malformed_yaml blank_yaml : YamlText
  yaml_root : YamlNode → YamlText

-- n.children[key]
unfoldable pub find_field : Text → Fields → Option Node
unfolding text_eq
find_field k no_field = none
find_field k (field j n fs) = if text_eq j k then some n else find_field k fs

-- A new key, at the end.
unfoldable pub add_field : Text → Node → Fields → Fields
add_field k n no_field = field k n no_field
add_field k n (field j m fs) = field j m (add_field k n fs)

-- n.children[key] = child, for a key that is there
unfoldable pub set_field : Text → Node → Fields → Fields
unfolding text_eq
set_field k n no_field = no_field
set_field k n (field j m fs) = if text_eq j k then field j n fs else field j m (set_field k n fs)

abbrev pub is_some : {A : Type 0} → Option A → Bool
is_some none = false
is_some (some a) = true

abbrev pub at_line : Text → ℕ → Origin
at_line file line = record { file = file; line = line }

unfoldable mutual
  unfolding find_field add_field

  -- fromYAML; `none` is a recursion that does not end. An alias that stands for a node around it is
  -- met again in that node, and again in it.
  pub from_yaml : Text → YamlNode → Fueled Node
  from_yaml file (document_node no_node) = done (map_node (at_line file 0) no_field)
  from_yaml file (document_node (node y ys)) = from_yaml file y
  from_yaml file (alias_node y) = from_yaml file y
  from_yaml file looping_alias = none
  from_yaml file (mapping_node line pairs) =
      from_pairs file pairs no_field >>= λ fs. done (map_node (at_line file line) fs)
  from_yaml file (sequence_node line ys) =
      from_nodes file ys >>= λ items. done (seq_node (at_line file line) items)
  from_yaml file (yaml_scalar line quoted value tag) = done (
      scalar_node (at_line file line) (record {
        value = value;
        tag = if quoted then text "!!str" else tag;
        secret = false;
        substituted = false;
      }))
  from_yaml file unknown_node = some (err plain)

  pub from_nodes : Text → YamlNodes → Fueled Items
  from_nodes file no_node = done no_item
  from_nodes file (node y ys) =
      from_yaml file y >>= λ n. from_nodes file ys >>= λ items. done (item n items)

  -- The loop over the pairs of a mapping.
  pub from_pairs : Text → YamlPairs → Fields → Fueled Fields
  from_pairs file no_pair fs = done fs
  from_pairs file (pair key y pairs) fs =
      let rest = from_yaml file y >>= λ n. from_pairs file pairs (add_field key n fs) in
      if is_some (find_field key fs) then some (err plain) else rest

unfoldable pub parse_yaml : Text → YamlText → Fueled Node
unfolding from_yaml
parse_yaml file malformed_yaml = some (err plain)
parse_yaml file blank_yaml = done (map_node (at_line file 0) no_field)
parse_yaml file (yaml_root y) = from_yaml file y

unfoldable mutual
  unfolding find_field add_field set_field

  -- mergeNode, of two nodes
  pub merge_node : Node → Node → Node
  merge_node (map_node o fs) (map_node p gs) = map_node p (merge_fields fs gs)
  merge_node base override = override

  -- The loop over the override's keys.
  pub merge_fields : Fields → Fields → Fields
  merge_fields fs no_field = fs
  merge_fields fs (field k n gs) =
      merge_fields
        (elim (find_field k fs) [
          | none ↦ add_field k n fs
          | some m ↦ set_field k (merge_node m n) fs
        ])
        gs

-- mergeNode, where nil is `none`
abbrev pub merge_option : Option Node → Option Node → Option Node
merge_option none override = override
merge_option (some base) none = some base
merge_option (some base) (some override) = some (merge_node base override)

abbrev pub merge_from : Option Node → List (Option Node) → Option Node
merge_from out [] = out
merge_from out (layer ∷ layers) = merge_from (merge_option out layer) layers

-- mergeTrees
abbrev pub merge_trees : List (Option Node) → Option Node
merge_trees = merge_from none
