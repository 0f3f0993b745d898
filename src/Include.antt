-- ===== src/Include.antt =====
-- flexconf/include.go: the expansion of `$(config:path)` tokens in the tree of one layer. `Files` has
-- what package filepath and the Loader's file source do. The recursion into the included files is on
-- fuel, and one tree is walked by structure.
pub mod Ending
pub mod Containment
use go_flexconf.Fuel.{Fueled, ◌>>=◌, done}
use go_flexconf.Errors.{
  Result, ok, err, wraps, plain, include_embedded, include_extension, include_escape,
  include_too_deep, include_cycle,
}
use go_flexconf.Node.{
  Node, Fields, Items, Origin, Scalar, YamlText, scalar_node, map_node, seq_node, no_field, field,
  no_item, item, parse_yaml,
}
use go_flexconf.Template.{Segment, scan_tokens, is_token}
use go_flexconf.Text.{Text, text, text_eq, contains, has_prefix}
use go_flexconf.Base.{
  Bool, List, Option, [], false, if◌then◌else◌, leb, length, map, none, not, some, true, ℕ, ◌==◌,
  ◌||◌, ◌∷◌, suc, zero, ◌++◌,
}

-- What a read of a file gives.
pub data Contents : Type 0 where
  missing unreadable : Contents
  bytes : YamlText → Contents

-- filepath.Join, filepath.Dir, filepath.IsAbs and filepath.Rel, and readFile
pub record Files : Type 0 where
  pub join : Text → Text → Text
  pub dir : Text → Text
  pub is_abs : Text → Bool
  pub rel : Text → Text → Option Text
  pub read : Text → Contents

abbrev pub max_include_depth : ℕ
max_include_depth = 16

-- filepath.Ext, from the extension found so far
unfoldable pub extension_from : Text → Text → Text
extension_from found [] = found
extension_from found (c ∷ s) =
    extension_from (if c == b'.' then c ∷ s else if c == b'/' then [] else found) s

unfoldable pub is_yaml_name : Text → Bool
unfolding extension_from text_eq
is_yaml_name name =
    let ext = extension_from [] name in text_eq ext (text ".yaml") || text_eq ext (text ".yml")

abbrev is_config : Segment → Bool
is_config seg = text_eq seg.scheme (text "config")

unfoldable pub has_config : List Segment → Bool
unfolding text_eq
has_config [] = false
has_config (seg ∷ segs) = is_config seg || has_config segs

unfoldable pub seen_in : Text → List Text → Bool
unfolding text_eq
seen_in target [] = false
seen_in target (t ∷ chain) = text_eq t target || seen_in target chain

abbrev climbs : Option Text → Bool
climbs none = true
climbs (some r) = text_eq r (text "..") || has_prefix r (text "../")

-- Does a path lead out of the layer's directory?
unfoldable pub escapes : Files → Text → Text → Bool
unfolding text_eq has_prefix
escapes files layer_dir target = climbs (files.rel layer_dir target)

abbrev target_of : Files → Origin → Text → Text
target_of files o path =
    if not (files.is_abs path) then files.join (files.dir o.file) path else path

-- The checks on one include, in their order.
unfoldable pub check_include : Files → Text → List Text → Text → Text → Result (Option Text)
unfolding is_yaml_name escapes seen_in
check_include files layer_dir chain path target =
    if not (is_yaml_name path)
    then err (wraps include_extension)
    else if escapes files layer_dir target
    then err (wraps include_escape)
    else if leb max_include_depth (length chain)
    then err (wraps include_too_deep)
    else if seen_in target chain
    then err (wraps include_cycle)
    else ok (some target)

-- The file that a list of segments includes, if it is a whole-value token, or no file.
unfoldable pub included : Files → Text → List Text → Origin → List Segment → Result (Option Text)
unfolding has_config check_include
included files layer_dir chain o [] = ok none
included files layer_dir chain o (seg ∷ []) =
    if not (has_config (seg ∷ []))
    then ok none
    else if not (is_token seg)
    then err (wraps include_embedded)
    else check_include files layer_dir chain seg.path (target_of files o seg.path)
included files layer_dir chain o (seg ∷ next ∷ segs) =
    if not (has_config (seg ∷ next ∷ segs)) then ok none else err (wraps include_embedded)

-- The file that a scalar includes, or no file.
unfoldable pub include_target : Files → Text → List Text → Origin → Scalar → Result (Option Text)
unfolding contains scan_tokens included
include_target files layer_dir chain o s =
    if not (contains s.value (text "$(config:")) then ok none else elim (scan_tokens s.value) [
      | err e ↦ err e
      | ok segs ↦ included files layer_dir chain o segs
    ]

-- readFile and parseYAML, for a file that is included
unfoldable pub parsed : Text → Contents → Fueled Node
unfolding parse_yaml
parsed target (bytes y) = parse_yaml target y
parsed target missing = some (err plain)
parsed target unreadable = some (err plain)

unfoldable mutual
  -- The walk of expandIncludes over one tree.
  pub expand_tree : (Origin → Scalar → Fueled Node) → Node → Fueled Node
  expand_tree expand_scalar (scalar_node o s) = expand_scalar o s
  expand_tree expand_scalar (map_node o fs) =
      expand_fields expand_scalar fs >>= λ gs. done (map_node o gs)
  expand_tree expand_scalar (seq_node o items) =
      expand_items expand_scalar items >>= λ more. done (seq_node o more)

  pub expand_fields : (Origin → Scalar → Fueled Node) → Fields → Fueled Fields
  expand_fields expand_scalar no_field = done no_field
  expand_fields expand_scalar (field k n fs) = expand_tree expand_scalar n >>= λ m.
      expand_fields expand_scalar fs >>= λ gs. done (field k m gs)

  pub expand_items : (Origin → Scalar → Fueled Node) → Items → Fueled Items
  expand_items expand_scalar no_item = done no_item
  expand_items expand_scalar (item n items) = expand_tree expand_scalar n >>= λ m.
      expand_items expand_scalar items >>= λ more. done (item m more)

-- expandScalarInclude, where `expand_more` expands the tree of an included file.
unfoldable pub expand_scalar :
    Files → Text → List Text → (List Text → Node → Fueled Node) → Origin → Scalar → Fueled Node
unfolding include_target parsed
expand_scalar files layer_dir chain expand_more o s =
    some (include_target files layer_dir chain o s) >>= λ found. elim found [
      | none ↦ done (scalar_node o s)
      | some target ↦
          parsed target (files.read target) >>= λ tree. expand_more (chain ++ target ∷ []) tree
    ]

-- expandIncludes, on fuel for the files that are open
unfoldable pub expand : ℕ → Files → Text → List Text → Node → Fueled Node
unfolding expand_tree expand_scalar
expand zero files layer_dir chain n = none
expand (suc fuel) files layer_dir chain n =
    expand_tree
      (expand_scalar files layer_dir chain (λ longer tree. expand fuel files layer_dir longer tree))
      n

-- The expansion of the tree of a layer's own file, with fuel for the cap on the depth.
abbrev pub expand_includes : Files → Text → Text → Node → Fueled Node
expand_includes files layer_dir path n = expand max_include_depth files layer_dir (path ∷ []) n
