-- ===== src/Tests/Binding.antt =====
-- The schema and the binding of the struct of the other tests, and the least integers.
use go_flexconf.Tests.Loading.{host, app_decls, empty_app, store}
use go_flexconf.Schema.{
  basic, int_kind, uint_kind, interface_type, FieldInfo, collect_fields, find_info, struct_fields,
  GoType,
}
use go_flexconf.Coerce.Bounds.{coerce_scalar-Fits, Fits}
use go_flexconf.Bind.{bind_struct}
use go_flexconf.Bind.Strict.{bind_struct-strict, Provided}
use go_flexconf.Binder.{child_bindings}
use go_flexconf.Schema.Merged.{Fitting}
use go_flexconf.Load.Shaped.{merge_trees-Fitting}
use go_flexconf.Load.{validate_layers}
use go_flexconf.Node.{map_node, seq_node, no_item, Node, merge_node, merge_trees}
use go_flexconf.Schema.{struct_type}
use go_flexconf.Node.{field, no_field, scalar_node, at_line, is_some}
use go_flexconf.Base.Int.{negsuc}
use go_flexconf.Base.{All, List, [], false, none, refl, some, true, ◌∷◌, ◌≡◌, String}
use go_flexconf.Store.{Binding}
use go_flexconf.Dict.{Dict, keys}
use go_flexconf.Coerce.{coerce_scalar, int_value}
use go_flexconf.Errors.{ok, err, plain}
use go_flexconf.Text.{text}

lowest : coerce_scalar host.floats (int_kind 8) (text "-128") ≡ some (int_value (negsuc 127))
unfolding coerce_scalar
lowest = refl

too_low : coerce_scalar host.floats (int_kind 8) (text "-129") ≡ none
unfolding coerce_scalar
too_low = refl

coerce_scalar-Fits_example : Fits (int_kind 8) (int_value (negsuc 127))
coerce_scalar-Fits_example =
    coerce_scalar-Fits host.floats (int_kind 8) (text "-128") (int_value (negsuc 127)) lowest

abbrev app_infos : List FieldInfo
app_infos =
    record {
      key = text "storage";
      index = 0 ∷ [];
      required = false;
      selector = false;
      typ = interface_type (record { name = text "Storage"; empty = false; unmarshals = false });
    }
    ∷ record {
      key = text "port";
      index = 1 ∷ [];
      required = true;
      selector = false;
      typ = basic [] (uint_kind 16);
    }
    ∷ []

app_fields : struct_fields app_decls ≡ ok app_infos
unfolding collect_fields
app_fields = refl

abbrev port_only : Dict Binding
port_only = child_bindings host (
    field (text "port")
      (scalar_node (at_line [] 1)
        (record { value = text "80"; tag = []; secret = false; substituted = false }))
      no_field)

port_binds : (bind_struct host port_only (text "App") app_decls empty_app [] store).failure ≡ none
unfolding bind_struct child_bindings
port_binds = refl

bind_struct-strict_example :
    All (λ key. is_some (find_info key app_infos) ≡ true) (keys port_only)
    × All (Provided port_only) app_infos
bind_struct-strict_example =
    bind_struct-strict host port_only (text "App") app_decls empty_app [] store app_infos
      (λ P l h. h) app_fields port_binds

abbrev port_layer : String → Node
port_layer port = map_node (at_line [] 1) (
    field (text "port")
      (scalar_node (at_line [] 1)
        (record { value = text port; tag = []; secret = false; substituted = false }))
      no_field)

abbrev app_type : GoType
app_type = struct_type (text "App") app_decls

layers_fit : validate_layers (port_layer "80" ∷ port_layer "81" ∷ []) app_type ≡ ok tt
unfolding validate_layers
layers_fit = refl

layers_merge :
    merge_trees (some (port_layer "80") ∷ some (port_layer "81") ∷ []) ≡ some (port_layer "81")
unfolding merge_node
layers_merge = refl

list_refused : validate_layers (seq_node (at_line [] 1) no_item ∷ []) app_type ≡ err plain
unfolding validate_layers
list_refused = refl

merge_trees-Fitting_example : Fitting app_type (port_layer "81")
merge_trees-Fitting_example =
    merge_trees-Fitting app_type (port_layer "80" ∷ port_layer "81" ∷ []) (port_layer "81")
      layers_fit layers_merge
