-- ===== src/Binder/Keeping.antt =====
-- Every step of a binding keeps the registries in order, whether it fails or not.
use go_flexconf.Binder.Rollback.{Intact}
use go_flexconf.Schema.{struct_type, decl, no_decl, Decls, GoType, FieldInfo, struct_fields}
use go_flexconf.Bind.{has_unknown}
use go_flexconf.Store.{
  Binding, Member, Outcome, Store, at_index, at_member, at_struct, through, ◌and_then◌, Host, alloc,
  place_of, pointee, struct_parts, zero_value,
}
use go_flexconf.Dict.{Dict, lookup, keys}
use go_flexconf.Base.{
  List, [], suc, zero, ℕ, ◌∷◌, All, Option-cases, inl, inr, Bool, false, if◌then◌else◌, true,
}
use go_flexconf.Variant.{Registry}
use go_flexconf.Text.{Text}
use go_flexconf.Coerce.{Value, Values, value_then, no_value}
use go_flexconf.Errors.{Result-cases}
use go_flexconf.Bind.{bind_fields, bind_struct, call_validate}
use go_flexconf.Dict.Laws.{lookup-All}

module _ (before : Dict (Registry Member)) where
  abbrev pub Keeps : Store → Type 0
  Keeps s = Intact before s.families s.touched

  -- What a step leaves, failed or not.
  pub record Leaves (o : Outcome) : Type 0 where
    pub kept : Keeps o.store

  abbrev pub BindingKeeps : Binding → Type 0
  BindingKeeps β =
      (t : GoType) (v : Value) (path : Text) (s : Store) → Keeps s → Leaves (β t v path s)

  pub if-Keeps : (b : Bool) (o p : Outcome) → Leaves o → Leaves p → Leaves (if b then o else p)
  if-Keeps true o p h k = h
  if-Keeps false o p h k = k

  pub and_then-Keeps :
      (o : Outcome) (next : Value → Store → Outcome)
      → Leaves o
      → ((v : Value) (s : Store) → Keeps s → Leaves (next v s))
      → Leaves (o and_then next)
  and_then-Keeps o next h k = elim (Option-cases o.failure) [
    | inl went ↦ simp (went, ◌and_then◌) (k o.value o.store h.kept)
    | inr (e, stopped) ↦ simp (stopped, ◌and_then◌) h
  ]

  pub through-Keeps :
      (t : GoType) (v : Value) (s : Store) (act : Value → Store → Outcome)
      → Keeps s
      → ((v : Value) (s : Store) → Keeps s → Leaves (act v s))
      → Leaves (through t v s act)
  unfolding through
  through-Keeps t v s act h k = elim (Option-cases (place_of v)) [
    | inl new ↦ rw (new, through) (record { kept = (k _ (alloc (zero_value t) s) h).kept })
    | inr (l, there) ↦ rw (there, through) (record { kept = (k _ s h).kept })
  ]

  at_member-Keeps :
      (i : ℕ) (ds : Decls) (vs : Values) (s : Store) (act : Binding) (path : Text)
      → BindingKeeps act
      → Keeps s
      → Leaves (at_member i ds vs s act path)
  unfolding at_member
  at_member-Keeps i no_decl vs s act path k h = record { kept = h }
  at_member-Keeps i (decl f t ds) no_value s act path k h = record { kept = h }
  at_member-Keeps zero (decl f t ds) (value_then v vs) s act path k h = record {
    kept = (k t v path s h).kept;
  }
  at_member-Keeps (suc i) (decl f t ds) (value_then v vs) s act path k h = record {
    kept = (at_member-Keeps i ds vs s act path k h).kept;
  }

  at_struct-Keeps :
      (i : ℕ) (t : GoType) (v : Value) (s : Store) (act : Binding) (path : Text)
      → BindingKeeps act
      → Keeps s
      → Leaves (at_struct i t v s act path)
  at_struct-Keeps i t v s act path k h = elim (Option-cases (struct_parts t v)) [
    | inl other ↦ rw (other, at_struct) (record { kept = h })
    | inr ((ds, vs), parts) ↦ rw (parts, at_struct) (at_member-Keeps i ds vs s act path k h)
  ]

  at_index-Keeps :
      (index : List ℕ) (act : Binding) → BindingKeeps act → BindingKeeps (at_index index act)
  unfolding at_index
  at_index-Keeps [] act k t v path s h = k t v path s h
  at_index-Keeps (i ∷ index) act k t v path s h =
      let deeper = at_index-Keeps index act k in
      elim (Option-cases (pointee t)) [
        | inl other ↦ rw (other, at_index) (at_struct-Keeps i t v s _ path deeper h)
        | inr (e, leads) ↦
            rw (leads, at_index)
              (through-Keeps e v s (λ w r. at_struct i e w r (at_index index act) path) h
                λ w r g. at_struct-Keeps i e w r (at_index index act) path deeper g)
      ]

  pub call_validate-Keeps :
      (host : Host) (t : GoType) (v : Value) (s : Store)
      → Keeps s
      → Leaves (call_validate host t v s)
  unfolding call_validate
  call_validate-Keeps host t v s h = elim (Option-cases (host.validate t v s.heap)) [
    | inl passed ↦ simp (passed, call_validate) (record { kept = h })
    | inr (e, refused) ↦ simp (refused, call_validate) (record { kept = h })
  ]

  -- What keeps the registries whatever the child is.
  abbrev pub AllKeep : Dict Binding → Type 0
  AllKeep children = All (λ c. BindingKeeps c.1) children

  bind_fields-Keeps :
      (children : Dict Binding) (infos : List FieldInfo)
      → AllKeep children
      → BindingKeeps (bind_fields children infos)
  unfolding bind_fields
  bind_fields-Keeps children [] k t v path s h = record { kept = h }
  bind_fields-Keeps children (info ∷ infos) k t v path s h =
      elim (Option-cases (lookup info.key children)) [
        | inl absent ↦
            simp (absent, bind_fields)
              (if-Keeps info.required _ _ (record { kept = h })
                (bind_fields-Keeps children infos k t v path s h))
        | inr (binding, present) ↦
            simp (present, bind_fields)
              (and_then-Keeps _ _
                (at_index-Keeps info.index binding
                  (lookup-All (λ c. BindingKeeps c.1) info.key children k present) t v _ s h)
                λ w r g. bind_fields-Keeps children infos k t w path r g)
      ]

  pub bind_struct-Keeps :
      (host : Host) (children : Dict Binding) (name : Text) (ds : Decls) (v : Value) (path : Text)
      (s : Store)
      → AllKeep children
      → Keeps s
      → Leaves (bind_struct host children name ds v path s)
  unfolding bind_struct
  bind_struct-Keeps host children name ds v path s k h = elim (Result-cases (struct_fields ds)) [
    | inr (e, refused) ↦ rw (refused, bind_struct) (record { kept = h })
    | inl (infos, collected) ↦
        rw (collected, bind_struct)
          (if-Keeps (has_unknown (keys children) infos) _ _ (record { kept = h })
            (and_then-Keeps _ _
              (bind_fields-Keeps children (host.arrange infos) k (struct_type name ds) v path s h)
              λ w r g. call_validate-Keeps host (struct_type name ds) w r g))
  ]
