-- ===== src/Load.antt =====
-- flexconf/loader.go: a Loader's `Load`, from the files of the layers to the destination. The
-- destination is a struct of type `t` in a pointer that is not nil.
pub mod AllOrNothing
pub mod Total
pub mod Shaped
use go_flexconf.Node.{
  Node, YamlText, map_node, scalar_node, seq_node, parse_yaml, merge_trees, merge_fields,
}
use go_flexconf.Include.{
  Files, Contents, missing, unreadable, bytes, is_yaml_name, expand_includes, expand,
}
use go_flexconf.Resolve.{Loader, static, resolve_tree}
use go_flexconf.Schema.{GoType, Decls, struct_type, validate_shape}
use go_flexconf.Coerce.{Value}
use go_flexconf.Store.{Host, Store, Outcome, Binding, failed}
use go_flexconf.Bind.{bind_struct}
use go_flexconf.Binder.{child_bindings, rollback}
use go_flexconf.Dict.{Dict}
use go_flexconf.Fuel.{Fueled, ◌>>=◌, done}
use go_flexconf.Errors.{
  Error, Result, ok, err, wraps, plain, is_panic, ◌>>◌, invalid_name, unsupported_format,
  config_not_found,
}
use go_flexconf.Text.{Text, text, contains, contains_char}
use go_flexconf.Base.{
  Bool, List, Option, [], ◌∷◌, false, true, if◌then◌else◌, none, some, not, ◌||◌, is_empty, map,
}

-- What a Loader reads: its directories, the files of the operating system, and those of includes.
pub record Setup : Type 0 where
  pub dirs : List Text
  pub disk : Text → Contents
  pub files : Files
  pub options : Loader
  pub host : Host

-- New: the directories of a Loader; `none` is the panic without one
abbrev pub new_loader : List Text → Option (List Text)
new_loader dirs = if is_empty dirs then none else some dirs

unfoldable pub validate_name : Text → Result (Unit {0})
unfolding contains contains_char is_yaml_name
validate_name name =
    if is_empty name
      || (contains_char b'/' name || contains_char b'\\' name)
      || contains name (text "..")
    then err (wraps invalid_name)
    else if is_yaml_name name
    then ok tt
    else err (wraps unsupported_format)

-- The top level must be a map.
abbrev pub top_map : Node → Fueled Node
top_map (map_node o fs) = done (map_node o fs)
top_map (scalar_node o sc) = some (err plain)
top_map (seq_node o items) = some (err plain)

-- The tree of a file that was read in a layer's directory.
unfoldable pub layer_tree : Setup → Text → Text → YamlText → Fueled Node
unfolding static parse_yaml expand
layer_tree setup dir path y = parse_yaml path y >>= λ parsed. top_map parsed >>= λ tree.
    let expanded = expand_includes setup.files dir path tree >>= λ more. top_map more in
    if not (static setup.options) then expanded else done tree

-- One round of the loop of readLayers.
unfoldable pub read_layer : Setup → Text → Text → Fueled (Option Node)
unfolding layer_tree
read_layer setup name dir =
    let path = setup.files.join dir name in
    elim (setup.disk path) [
      | missing ↦ done none
      | unreadable ↦ some (err plain)
      | bytes y ↦ layer_tree setup dir path y >>= λ tree. done (some tree)
    ]

abbrev pub onto : Option Node → List Node → List Node
onto none layers = layers
onto (some tree) layers = tree ∷ layers

-- readLayers
unfoldable pub read_layers : Setup → Text → List Text → Fueled (List Node)
unfolding read_layer
read_layers setup name [] = done []
read_layers setup name (dir ∷ dirs) = read_layer setup name dir >>= λ found.
    read_layers setup name dirs >>= λ layers. done (onto found layers)

-- The check of the shape of each layer.
unfoldable pub validate_layers : List Node → GoType → Result (Unit {0})
unfolding validate_shape
validate_layers [] t = ok tt
validate_layers (layer ∷ layers) t = validate_shape layer t >> validate_layers layers t

abbrev pub root_bindings : Host → Node → Dict Binding
root_bindings host (map_node o fs) = child_bindings host fs
root_bindings host n = []

-- The end of a load: the swap, or the roll back of the binder. A panic passes the roll back, which is
-- not deferred, and leaves the destination.
unfoldable pub settle : Value → Outcome → Outcome
unfolding rollback
settle v o = elim (o.failure) [
  | none ↦ o
  | some e ↦
      if is_panic e
      then failed v o.store e
      else failed v (record (o.store) { families = rollback o.store.touched o.store.families }) e
]

-- The binding of the tree to a copy of the destination, with a new binder.
unfoldable pub bind_copy : Host → Node → Text → Decls → Value → Store → Outcome
unfolding child_bindings bind_struct settle
bind_copy host tree name ds v s =
    settle v (bind_struct host (root_bindings host tree) name ds v [] (record s { touched = [] }))

abbrev pub bind_resolved : Host → Text → Decls → Value → Store → Result Node → Outcome
bind_resolved host name ds v s (err e) = failed v s e
bind_resolved host name ds v s (ok tree) = bind_copy host tree name ds v s

abbrev pub resolve_merged : Setup → Text → Decls → Value → Store → Option Node → Outcome
resolve_merged setup name ds v s none = failed v s (wraps config_not_found)
resolve_merged setup name ds v s (some tree) =
    bind_resolved setup.host name ds v s (resolve_tree setup.options tree)

-- Load, once the layers are read
unfoldable pub load_layers : Setup → Text → Decls → Value → Store → List Node → Outcome
unfolding validate_layers merge_fields resolve_tree bind_copy
load_layers setup name ds v s layers = elim (validate_layers layers (struct_type name ds)) [
  | err e ↦ failed v s e
  | ok u ↦ resolve_merged setup name ds v s (merge_trees (map some layers))
]

abbrev pub load_read : Setup → Text → Decls → Value → Store → Result (List Node) → Outcome
load_read setup name ds v s (err e) = failed v s e
load_read setup name ds v s (ok layers) = load_layers setup name ds v s layers

abbrev pub load_fueled : Setup → Text → Decls → Value → Store → Fueled (List Node) → Option Outcome
load_fueled setup name ds v s none = none
load_fueled setup name ds v s (some r) = some (load_read setup name ds v s r)

abbrev pub struct_of : GoType → Option (Text × Decls)
struct_of (struct_type name ds) = some (name, ds)
struct_of t = none

-- Load; `none` would be an expansion of includes that does not end.
unfoldable pub load : Setup → Text → GoType → Value → Store → Option Outcome
unfolding validate_name read_layers load_layers
load setup file t v s = elim (validate_name file) [
  | err e ↦ some (failed v s e)
  | ok u ↦ elim (struct_of t) [
    | none ↦ some (failed v s plain)
    | some (name, ds) ↦ load_fueled setup name ds v s (read_layers setup file setup.dirs)
  ]
]
