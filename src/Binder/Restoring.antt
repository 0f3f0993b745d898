-- ===== src/Binder/Restoring.antt =====
-- Binding a tree, whatever becomes of it, keeps the registries in order, and the roll back restores
-- them.
use go_flexconf.Schema.{
  duration_type, time_type, text_unmarshaler, basic, pointer, interface_type, struct_type, map_type,
  slice_type, array_type, Family, FieldInfo, struct_fields, Decls,
}
use go_flexconf.Node.{
  map_node, seq_node, scalar_node, item, field, no_item, no_field, Fields, Items, Node, Origin,
  find_field,
}
use go_flexconf.Binder.Keeping.{
  Keeps, BindingKeeps, AllKeep, Leaves, if-Keeps, through-Keeps, bind_struct-Keeps,
  call_validate-Keeps,
}
use go_flexconf.Binder.Failing.{
  bind_map-Keeps, bind_slice-Keeps, with_scalar-Keeps, record_instance-Keeps, drop_key-AllKeep,
}
use go_flexconf.Variant
use go_flexconf.Base.{All, List, Option-cases, [], inl, inr, not, length, ℕ}
use go_flexconf.Store.{Binding, Host, Member, Outcome, Store, alloc}
use go_flexconf.Dict.{Dict, lookup}
use go_flexconf.Variant.{Registry}
use go_flexconf.Errors.{Result-cases}
use go_flexconf.Text.{Text}
use go_flexconf.Coerce.{Value, coerce_scalar}
use go_flexconf.Binder.{
  assigning, bind_instance, bind_interface, bind_type, bind_value, bind_variant, child_bindings,
  element_bindings, field_selectors, naming_key, register_bound, struct_pointee, with_name,
  register_fields,
}
use go_flexconf.Vaults.Static.{strings}

module _ (before : Dict (Registry Member)) where
  register_bound-Keeps :
      (host : Host) (family : Text) (disc : Dict Text) (o : Origin) (m : Member)
      (infos : List FieldInfo) (v : Value) (path : Text) (made : Value) (s : Store)
      → Keeps before s
      → Leaves before (register_bound host family disc o m infos v path made s)
  register_bound-Keeps host family disc o m infos v path made s h =
      elim (Option-cases (field_selectors host s.heap infos v (with_name (naming_key path) disc))) [
        | inl panics ↦ simp (panics, register_bound) (record { kept = h })
        | inr (selectors, derived) ↦
            simp (derived, register_bound)
              (record_instance-Keeps before family _ selectors _ made s h)
      ]

  register_fields-Keeps :
      (host : Host) (family : Text) (disc : Dict Text) (o : Origin) (m : Member) (ds : Decls)
      (l : ℕ) (path : Text) (made : Value) (s : Store)
      → Keeps before s
      → Leaves before (register_fields host family disc o m ds l path made s)
  register_fields-Keeps host family disc o m ds l path made s h =
      elim (Result-cases (struct_fields ds)) [
        | inr (e, refused) ↦ rw (refused, register_fields) (record { kept = h })
        | inl (infos, collected) ↦
            rw (collected, register_fields)
              (register_bound-Keeps host family disc o m infos _ path made s h)
      ]

  assigning-Keeps :
      (v : Value) (o : Outcome) (next : Value → Store → Outcome)
      → Leaves before o
      → ((v : Value) (s : Store) → Keeps before s → Leaves before (next v s))
      → Leaves before (assigning v o next)
  assigning-Keeps v o next h k = elim (Option-cases o.failure) [
    | inl went ↦ simp (went, assigning) (k o.value o.store h.kept)
    | inr (e, stopped) ↦ simp (stopped, assigning) (record { kept = h.kept })
  ]

  bind_instance-Keeps :
      (host : Host) (family : Text) (disc : Dict Text) (rest : Dict Binding) (o : Origin)
      (m : Member)
      → AllKeep before rest
      → (v : Value) (path : Text) (s : Store) → Keeps before s
      → Leaves before (bind_instance host family disc rest o m v path s)
  unfolding bind_instance
  bind_instance-Keeps host family disc rest o m k v path s h =
      elim (Option-cases (struct_pointee m.typ)) [
        | inl other ↦ simp (other, bind_instance) (record { kept = h })
        | inr ((name, ds), leads) ↦
            simp (leads, bind_instance)
              (assigning-Keeps v _ _
                (record {
                  kept =
                      (bind_struct-Keeps before host rest name ds _ path (alloc m.value s) k
                        h).kept;
                })
                (register_fields-Keeps host family disc o m ds (length s.heap) path))
      ]

  bind_variant-Keeps :
      (host : Host) (n : Node) (children : Dict Binding) (family : Text) (reg : Registry Member)
      → AllKeep before children
      → (v : Value) (path : Text) (s : Store) → Keeps before s
      → Leaves before (bind_variant host n children family reg v path s)
  unfolding bind_variant
  bind_variant-Keeps host (scalar_node o fs) children family reg k v path s h = record { kept = h }
  bind_variant-Keeps host (seq_node o fs) children family reg k v path s h = record { kept = h }
  bind_variant-Keeps host (map_node o fs) children family reg k v path s h =
      elim (Option-cases (find_field reg.discriminator fs)) [
        | inl absent ↦ simp (absent, bind_variant) (record { kept = h })
        | inr (map_node p gs, found) ↦ simp (found, bind_variant) (record { kept = h })
        | inr (seq_node p items, found) ↦ simp (found, bind_variant) (record { kept = h })
        | inr (scalar_node p disc, found) ↦
            simp (found, bind_variant)
              (if-Keeps before disc.substituted _ _ (record { kept = h })
                (elim (Result-cases (Variant.new disc.value reg)) [
                  | inr (e, unknown) ↦ rw unknown (record { kept = h })
                  | inl (m, made) ↦ rw made (
                      bind_instance-Keeps host family _ _ o m
                        (drop_key-AllKeep before reg.discriminator children k) v path s h)
                ]))
      ]

  bind_interface-Keeps :
      (host : Host) (n : Node) (children : Dict Binding) (family : Family)
      → AllKeep before children
      → (v : Value) (path : Text) (s : Store) → Keeps before s
      → Leaves before (bind_interface host n children family v path s)
  unfolding bind_interface
  bind_interface-Keeps host n children family k v path s h =
      elim (Option-cases (lookup family.name s.families)) [
        | inl other ↦
            simp (other, bind_interface)
              (if-Keeps before (not family.empty) _ _ (record { kept = h }) (record { kept = h }))
        | inr (reg, found) ↦
            simp (found, bind_interface)
              (bind_variant-Keeps host n children family.name reg k v path s h)
      ]

  bind_type-Keeps :
      (host : Host) (n : Node) (children : Dict Binding) (elements : List Binding)
      → AllKeep before children
      → All (BindingKeeps before) elements
      → BindingKeeps before (bind_type host n children elements)
  unfolding bind_type
  bind_type-Keeps host n children elements k l duration_type v path s h =
      with_scalar-Keeps before n v s _ h λ sc. elim (Option-cases (host.parse_duration sc.value)) [
        | inl bad ↦ simp (bad) (record { kept = h })
        | inr (d, read) ↦ simp (read) (record { kept = h })
      ]
  bind_type-Keeps host n children elements k l time_type v path s h =
      with_scalar-Keeps before n v s _ h λ sc. elim (Option-cases (host.parse_time sc.value)) [
        | inl bad ↦ simp (bad) (record { kept = h })
        | inr (d, read) ↦ simp (read) (call_validate-Keeps before host time_type _ s h)
      ]
  bind_type-Keeps host n children elements k l (text_unmarshaler name) v path s h =
      with_scalar-Keeps before n v s _ h λ sc.
        if-Keeps before (not (host.unmarshal_text name sc.value v).1) _ _ (record { kept = h })
          (call_validate-Keeps before host _ _ s h)
  bind_type-Keeps host n children elements k l (basic name kind) v path s h =
      with_scalar-Keeps before n v s _ h λ sc.
        elim (Option-cases (coerce_scalar host.floats kind sc.value)) [
          | inl bad ↦ simp (bad) (record { kept = h })
          | inr (d, read) ↦ simp (read) (call_validate-Keeps before host _ _ s h)
        ]
  bind_type-Keeps host n children elements k l (pointer t) v path s h =
      through-Keeps before t v s _ h
        (λ w r g. bind_type-Keeps host n children elements k l t w path r g)
  bind_type-Keeps host n children elements k l (interface_type family) v path s h =
      bind_interface-Keeps host n children family k v path s h
  bind_type-Keeps host (map_node o fs) children elements k l (struct_type name ds) v path s h =
      bind_struct-Keeps before host children name ds v path s k h
  bind_type-Keeps host (scalar_node o fs) children elements k l (struct_type name ds) v path s h =
      record { kept = h }
  bind_type-Keeps host (seq_node o fs) children elements k l (struct_type name ds) v path s h =
      record { kept = h }
  bind_type-Keeps host n children elements k l (map_type strings t) v path s h =
      bind_map-Keeps before n children strings t v path s k h
  bind_type-Keeps host n children elements k l (slice_type t) v path s h =
      bind_slice-Keeps before host n elements t v path s l h
  bind_type-Keeps host n children elements k l (array_type t) v path s h = record { kept = h }

  mutual
    unfolding bind_value

    pub value_keeps : (host : Host) (n : Node) → BindingKeeps before (bind_value host n)
    value_keeps host (scalar_node o sc) = bind_type-Keeps host (scalar_node o sc) [] [] tt tt
    value_keeps host (map_node o fs) =
        bind_type-Keeps host (map_node o fs) (child_bindings host fs) [] (children_keep host fs) tt
    value_keeps host (seq_node o items) =
        bind_type-Keeps host (seq_node o items) [] (element_bindings host items) tt
          (elements_keep host items)

    pub children_keep : (host : Host) (fs : Fields) → AllKeep before (child_bindings host fs)
    children_keep host no_field = tt
    children_keep host (field k n fs) = (value_keeps host n, children_keep host fs)

    pub elements_keep :
        (host : Host) (items : Items) → All (BindingKeeps before) (element_bindings host items)
    elements_keep host no_item = tt
    elements_keep host (item n items) = (value_keeps host n, elements_keep host items)
