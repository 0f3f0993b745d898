-- ===== src/Binder.antt =====
-- flexconf/variants.go and flexconf/bind.go: the binding of a variant, and with it of every node.
pub mod Failing
pub mod Rollback
pub mod Restoring
pub mod Keeping
use go_flexconf.Node.{
  Node, Fields, Items, Scalar, Origin, scalar_node, map_node, seq_node, no_field, field, no_item,
  item, find_field,
}
use go_flexconf.Schema.{
  GoType, Decls, FieldInfo, Family, collect_fields, struct_fields, join_path, display_path,
}
use go_flexconf.Schema.{
  duration_type, time_type, text_unmarshaler, basic, pointer, interface_type, struct_type, map_type,
  slice_type, array_type,
}
use go_flexconf.Coerce.{
  Value, Values, nil_value, int_value, time_value, pointer_value, struct_value, no_value,
  value_then, coerce_scalar, generic,
}
use go_flexconf.Store.{
  Host, Store, Outcome, Member, Binding, bound, failed, ◌and_then◌, alloc, at_place, through,
  read_heap,
}
use go_flexconf.Bind.{bind_struct, bind_map, bind_slice, with_scalar, call_validate, mismatch}
use go_flexconf.Variant.{Registry, Instance, add_instance, instance_count, truncate_instances}
use go_flexconf.Variant
use go_flexconf.Dict.{Dict, lookup, insert, has_key, keys}
use go_flexconf.Errors.{Error, Result, ok, err, wraps, plain, panics}
use go_flexconf.Text.{Text, text, text_eq}
use go_flexconf.Base.Int.{ℤ, pos, negsuc, sub_ℕ}
use go_flexconf.Base.{
  Bool, List, Option, [], ◌∷◌, ◌++◌, false, true, if◌then◌else◌, none, some, not, ◌&&◌, ◌||◌,
  is_empty, length, ℕ, ◌+◌, ◌-◌, leb, ltb, ◌==◌, zero, suc,
}
use go_flexconf.Vaults.Static.{strings}

abbrev ends_with : ℕ → Text → Bool
ends_with c [] = false
ends_with c (d ∷ []) = d == c
ends_with c (d ∷ e ∷ s) = ends_with c (e ∷ s)

-- What follows the last separator, from what follows the last one so far.
unfoldable pub after_last : ℕ → Text → Text → Text
after_last sep found [] = found
after_last sep found (c ∷ s) = if c == sep then after_last sep s s else after_last sep found s

-- namingKey
unfoldable pub naming_key : Text → Option Text
unfolding after_last
naming_key path =
    if is_empty path || ends_with b']' path
    then none
    else let last = after_last b'.' path path in if is_empty last then none else some last

unfoldable pub member_at : ℕ → Values → Option Value
member_at i no_value = none
member_at zero (value_then v vs) = some v
member_at (suc i) (value_then v vs) = member_at i vs

abbrev field_of : List Value → ℕ → Value → Option Value
field_of heap i (struct_value vs) = member_at i vs
field_of heap i (pointer_value l) = elim (read_heap l heap) [
  | struct_value vs ↦ member_at i vs
  | v ↦ none
]
field_of heap i v = none

-- reflect's FieldByIndex, which panics at a nil pointer: `none`
unfoldable pub field_by_index : List Value → List ℕ → Value → Option Value
unfolding member_at read_heap
field_by_index heap [] v = some v
field_by_index heap (i ∷ index) v = elim (field_of heap i v) [
  | none ↦ none
  | some w ↦ field_by_index heap index w
]

-- The loop that derives the selectors from the fields of an instance; a panic is `none`.
unfoldable pub field_selectors :
    Host → List Value → List FieldInfo → Value → Dict Text → Option (Dict Text)
unfolding field_by_index insert
field_selectors host heap [] v selectors = some selectors
field_selectors host heap (info ∷ infos) v selectors =
    let rest = field_selectors host heap infos v selectors in
    let found : Option (Dict Text) = elim (field_by_index heap info.index v) [
      | none ↦ none
      | some w ↦ field_selectors host heap infos v (insert info.key (host.sprint w) selectors)
    ] in
    if not info.selector then rest else found

-- touched
unfoldable pub touch : Text → Registry Member → Store → Store
unfolding has_key insert
touch family reg s =
    if has_key family s.touched
    then s
    else record s { touched = insert family (sub_ℕ (instance_count reg) 1) s.touched }

-- AddInstance on the registry of the family, and touched
unfoldable pub record_instance : Text → Member → Dict Text → Text → Value → Store → Outcome
unfolding lookup insert add_instance touch
record_instance family m selectors location v s = elim (lookup family s.families) [
  | none ↦ failed v s plain
  | some reg ↦ elim (add_instance (some m) selectors location reg) [
    | err e ↦ failed v s e
    | ok more ↦ bound v (touch family more (record s { families = insert family more s.families }))
  ]
]

-- n.origin()
abbrev pub origin_text : Host → Origin → Text
origin_text host o = if is_empty o.file then [] else o.file ++ text ":" ++ host.itoa o.line

abbrev with_name : Option Text → Dict Text → Dict Text
with_name none selectors = selectors
with_name (some name) selectors = insert (text "name") name selectors

unfoldable pub drop_key : Text → Dict Binding → Dict Binding
unfolding text_eq
drop_key k [] = []
drop_key k ((j, binding) ∷ children) =
    if text_eq j k then drop_key k children else (j, binding) ∷ drop_key k children

abbrev pub struct_pointee : GoType → Option (Text × Decls)
struct_pointee (pointer (struct_type name ds)) = some (name, ds)
struct_pointee t = none

-- Go on from a binding of an instance; an error leaves the target as it was.
abbrev pub assigning : Value → Outcome → (Value → Store → Outcome) → Outcome
assigning v o next = elim (o.failure) [ none ↦ next o.value o.store | some e ↦ failed v o.store e ]

-- Selectors for an instance that was bound, and its registration.
abbrev pub register_bound :
    Host
    → Text
    → Dict Text
    → Origin
    → Member
    → List FieldInfo
    → Value
    → Text
    → Value
    → Store
    → Outcome
register_bound host family disc o m infos v path made s =
    elim (field_selectors host s.heap infos v (with_name (naming_key path) disc)) [
      | none ↦ failed made s panics
      | some selectors ↦
          record_instance family (record m { value = made }) selectors
            (display_path path ++ text " (" ++ origin_text host o ++ text ")") made s
    ]

abbrev pub register_fields :
    Host → Text → Dict Text → Origin → Member → Decls → ℕ → Text → Value → Store → Outcome
register_fields host family disc o m ds l path made s = elim (struct_fields ds) [
  | err e ↦ failed made s e
  | ok infos ↦ register_bound host family disc o m infos (read_heap l s.heap) path made s
]

-- What bindVariant does with the instance that a factory made: its place is the next of the heap.
unfoldable pub bind_instance :
    Host → Text → Dict Text → Dict Binding → Origin → Member → Value → Text → Store → Outcome
unfolding bind_struct naming_key insert field_selectors record_instance collect_fields display_path
bind_instance host family disc rest o m v path s = elim (struct_pointee m.typ) [
  | none ↦ failed v s plain
  | some (name, ds) ↦
      assigning v
        (at_place (length s.heap) (alloc m.value s) (λ w r. bind_struct host rest name ds w path r))
        (register_fields host family disc o m ds (length s.heap) path)
]

-- bindVariant, for a registered family
unfoldable pub bind_variant :
    Host → Node → Dict Binding → Text → Registry Member → Value → Text → Store → Outcome
unfolding find_field Variant.new drop_key bind_instance insert
bind_variant host (map_node o fs) children family reg v path s =
    elim (find_field reg.discriminator fs) [
      | some (scalar_node p disc) ↦
          let made : Outcome = elim (Variant.new disc.value reg) [
            | err e ↦ failed v s e
            | ok m ↦
                bind_instance host family (insert reg.discriminator disc.value [])
                  (drop_key reg.discriminator children) o m v path s
          ] in
          if disc.substituted then failed v s plain else made
      | other ↦ failed v s plain
    ]
bind_variant host n children family reg v path s = failed v s plain

-- bindInterface
unfoldable pub bind_interface : Host → Node → Dict Binding → Family → Value → Text → Store → Outcome
unfolding lookup bind_variant generic
bind_interface host n children family v path s = elim (lookup family.name s.families) [
  | some reg ↦ bind_variant host n children family.name reg v path s
  | none ↦ if not family.empty then failed v s plain else bound (generic host.floats n) s
]

-- bindValue, for a node whose children are bindings
unfoldable pub bind_type : Host → Node → Dict Binding → List Binding → Binding
unfolding through bind_interface bind_struct bind_map bind_slice call_validate coerce_scalar
bind_type host n children elements duration_type v path s = with_scalar n v s λ sc.
    elim (host.parse_duration sc.value) [
      | none ↦ failed v s mismatch
      | some d ↦ bound (int_value d) s
    ]
bind_type host n children elements time_type v path s = with_scalar n v s λ sc.
    elim (host.parse_time sc.value) [
      | none ↦ failed v s mismatch
      | some d ↦ call_validate host time_type (time_value d) s
    ]
bind_type host n children elements (text_unmarshaler name) v path s = with_scalar n v s λ sc.
    let (w, accepted) = host.unmarshal_text name sc.value v in
    if not accepted then failed w s mismatch else call_validate host (text_unmarshaler name) w s
bind_type host n children elements (basic name k) v path s = with_scalar n v s λ sc.
    elim (coerce_scalar host.floats k sc.value) [
      | none ↦ failed v s mismatch
      | some w ↦ call_validate host (basic name k) w s
    ]
bind_type host n children elements (pointer t) v path s =
    through t v s (λ w r. bind_type host n children elements t w path r)
bind_type host n children elements (interface_type family) v path s =
    bind_interface host n children family v path s
bind_type host (map_node o fs) children elements (struct_type name ds) v path s =
    bind_struct host children name ds v path s
bind_type host (scalar_node o sc) children elements (struct_type name ds) v path s =
    failed v s mismatch
bind_type host (seq_node o items) children elements (struct_type name ds) v path s =
    failed v s mismatch
bind_type host n children elements (map_type strings t) v path s =
    bind_map n children strings t v path s
bind_type host n children elements (slice_type t) v path s = bind_slice host n elements t v path s
bind_type host n children elements (array_type t) v path s = failed v s mismatch

unfoldable mutual
  unfolding bind_type

  -- bindValue
  pub bind_value : Host → Node → Binding
  bind_value host (scalar_node o sc) = bind_type host (scalar_node o sc) [] []
  bind_value host (map_node o fs) = bind_type host (map_node o fs) (child_bindings host fs) []
  bind_value host (seq_node o items) =
      bind_type host (seq_node o items) [] (element_bindings host items)

  pub child_bindings : Host → Fields → Dict Binding
  child_bindings host no_field = []
  child_bindings host (field k n fs) = (k, bind_value host n) ∷ child_bindings host fs

  pub element_bindings : Host → Items → List Binding
  element_bindings host no_item = []
  element_bindings host (item n items) = bind_value host n ∷ element_bindings host items

-- rollback, of the entries of touchedRegs
unfoldable pub rollback : Dict ℤ → Dict (Registry Member) → Dict (Registry Member)
unfolding lookup insert truncate_instances
rollback [] families = families
rollback ((family, before) ∷ more) families = rollback more (elim (lookup family families) [
  | none ↦ families
  | some reg ↦ insert family (truncate_instances before reg) families
])
