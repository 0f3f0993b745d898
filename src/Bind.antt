-- ===== src/Bind.antt =====
-- flexconf/bind.go and flexconf/variants.go: the binding of a resolved tree to a Go value. The children
-- of a node are bindings of their own: what remains is one level of the tree, and the pointers of the
-- type.
pub mod Strict
pub mod Messages
use go_flexconf.Node.{
  Node, Fields, Items, Scalar, Origin, scalar_node, map_node, seq_node, no_field, field, no_item,
  item, find_field, is_some,
}
use go_flexconf.Schema.{
  GoType, Decls, FieldInfo, Family, Kind, struct_fields, collect_fields, find_info, join_path,
  display_path,
}
use go_flexconf.Schema.{
  duration_type, time_type, text_unmarshaler, basic, pointer, interface_type, struct_type, map_type,
  slice_type, array_type, no_decl, decl,
}
use go_flexconf.Coerce.{
  Value, Values, nil_value, int_value, time_value, pointer_value, struct_value, slice_value,
  map_value, no_value, value_then, coerce_scalar, generic,
}
use go_flexconf.Store.{
  Host, Store, Outcome, Member, Binding, bound, failed, ◌and_then◌, alloc, at_place, through,
  at_index, zero_value, read_heap,
}
use go_flexconf.Variant.{Registry, Instance, add_instance, instance_count, truncate_instances}
use go_flexconf.Variant
use go_flexconf.Dict.{Dict, lookup, insert, has_key, keys}
use go_flexconf.Errors.{
  Error, Result, ok, err, wraps, plain, unknown_field, missing_required, type_mismatch,
}
use go_flexconf.Text.{Text, text, text_eq}
use go_flexconf.Base.Int.{ℤ, pos, negsuc, sub_ℕ}
use go_flexconf.Base.{
  Bool, List, Option, [], ◌∷◌, ◌++◌, false, true, if◌then◌else◌, none, some, not, ◌&&◌, ◌||◌,
  is_empty, length, ℕ, ◌+◌, ◌-◌, leb, ltb, ◌==◌, zero, suc,
}

abbrev pub mismatch : Error
mismatch = wraps type_mismatch

-- callValidate
unfoldable pub call_validate : Host → GoType → Value → Store → Outcome
call_validate host t v s = elim (host.validate t v s.heap) [
  | none ↦ bound v s
  | some e ↦ failed v s e
]

-- Is there a key without a field?
unfoldable pub has_unknown : List Text → List FieldInfo → Bool
unfolding find_info
has_unknown [] infos = false
has_unknown (key ∷ more) infos = not (is_some (find_info key infos)) || has_unknown more infos

-- The loop over the fields of a struct.
unfoldable pub bind_fields : Dict Binding → List FieldInfo → Binding
unfolding lookup at_index join_path
bind_fields children [] t v path s = bound v s
bind_fields children (info ∷ infos) t v path s = elim (lookup info.key children) [
  | none ↦
      let rest = bind_fields children infos t v path s in
      if info.required then failed v s (wraps missing_required) else rest
  | some binding ↦ at_index info.index binding t v (join_path path info.key) s and_then λ w r.
      bind_fields children infos t w path r
]

-- bindStruct, for the keys that `children` has
unfoldable pub bind_struct : Host → Dict Binding → Text → Decls → Value → Text → Store → Outcome
unfolding collect_fields has_unknown bind_fields call_validate
bind_struct host children name ds v path s = elim (struct_fields ds) [
  | err e ↦ failed v s e
  | ok infos ↦
      let done =
        bind_fields children (host.arrange infos) (struct_type name ds) v path s and_then λ w r.
        call_validate host (struct_type name ds) w r in
      if has_unknown (keys children) infos then failed v s (wraps unknown_field) else done
]

-- The loop of bindMap, into new values of the element type.
unfoldable pub bind_entries : Dict Binding → GoType → Text → Store → (Values → Value) → Outcome
unfolding join_path zero_value
bind_entries [] t path s build = bound (build no_value) s
bind_entries ((key, binding) ∷ children) t path s build =
    binding t (zero_value t) (join_path path key) s and_then λ v r.
    bind_entries children t path r (λ vs. build (value_then v vs))

abbrev index_path : Host → Text → ℕ → Text
index_path host path i = path ++ text "[" ++ host.itoa i ++ text "]"

-- The loop of bindSlice.
unfoldable pub bind_elements :
    Host → ℕ → List Binding → GoType → Text → Store → (Values → Value) → Outcome
unfolding zero_value
bind_elements host i [] t path s build = bound (build no_value) s
bind_elements host i (binding ∷ elements) t path s build =
    binding t (zero_value t) (index_path host path i) s and_then λ v r.
    bind_elements host (suc i) elements t path r (λ vs. build (value_then v vs))

-- On an error of a loop, the target is as it was.
abbrev pub keeping : Value → Outcome → Outcome
keeping v o = elim (o.failure) [ none ↦ o | some e ↦ failed v o.store e ]

-- requireScalar, and what follows
abbrev pub with_scalar : Node → Value → Store → (Scalar → Outcome) → Outcome
with_scalar (scalar_node o sc) v s next = next sc
with_scalar n v s next = failed v s mismatch

-- bindMap
unfoldable pub bind_map : Node → Dict Binding → Bool → GoType → Value → Text → Store → Outcome
unfolding bind_entries
bind_map (map_node o fs) children strings t v path s =
    if not strings
    then failed v s plain
    else keeping v (bind_entries children t path s (map_value (keys children)))
bind_map n children strings t v path s =
    if not strings then failed v s plain else failed v s mismatch

-- bindSlice
unfoldable pub bind_slice : Host → Node → List Binding → GoType → Value → Text → Store → Outcome
unfolding bind_elements
bind_slice host (seq_node o items) elements t v path s =
    keeping v (bind_elements host 0 elements t path s slice_value)
bind_slice host n elements t v path s = failed v s mismatch
