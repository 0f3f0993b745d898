-- ===== src/Binder/Failing.antt =====
-- Registering an instance and binding the elements of a container keep the registries in order.
use go_flexconf.Schema.{GoType}
use go_flexconf.Node.{map_node, seq_node, scalar_node, Node, Scalar}
use go_flexconf.Binder.Keeping.{Keeps, BindingKeeps, AllKeep, Leaves, if-Keeps, and_then-Keeps}
use go_flexconf.Binder.Rollback.{Extends-some, touched_before, newly_touched}
use go_flexconf.Variant.Instances.{add_instance-ok, one_more, no_more}
use go_flexconf.Base.{
  All, Bool, Bool-cases, List, Option, Option-cases, [], inl, inr, not, some, suc, ℕ, ◌∷◌, ◌≡◌, ap,
  arith, length-append, refl, sym, zero, ◌∙◌,
}
use go_flexconf.Store.{Binding, Host, Member, Outcome, Store}
use go_flexconf.Dict.{Dict, has_key, insert, lookup}
use go_flexconf.Variant.{Registry, add_instance, instance_count}
use go_flexconf.Errors.{Result-cases, ok}
use go_flexconf.Text.{Text, text_eq}
use go_flexconf.Coerce.{Value, Values, value_then}
use go_flexconf.Bind.{bind_elements, bind_entries, bind_map, bind_slice, keeping, with_scalar}
use go_flexconf.Binder.{drop_key, record_instance, touch}
use go_flexconf.Vaults.Static.{strings}
use go_flexconf.Base.Int.{sub_ℕ, pos}

sub_one : (n : ℕ) → sub_ℕ (suc n) 1 ≡ pos n
sub_one zero = refl
sub_one (suc n) = ground arith

added_one :
    (reg more : Registry Member) (m : Option Member) (selectors : Dict Text) (location : Text)
    → add_instance m selectors location reg ≡ ok more
    → sub_ℕ (instance_count more) 1 ≡ pos (instance_count reg)
added_one reg more m selectors location added =
    let (i, fresh, same) = add_instance-ok m selectors location reg added in
    let longer : instance_count more ≡ suc (instance_count reg) =
      ap instance_count same ∙ (length-append reg.instances (i ∷ []) ∙ omega arith) in
    ap (λ n. sub_ℕ n 1) longer ∙ sub_one (instance_count reg)

module _ (before : Dict (Registry Member)) where
  bind_entries-Keeps :
      (children : Dict Binding) (t : GoType) (path : Text) (s : Store) (build : Values → Value)
      → AllKeep before children
      → Keeps before s
      → Leaves before (bind_entries children t path s build)
  unfolding bind_entries
  bind_entries-Keeps [] t path s build k h = record { kept = h }
  bind_entries-Keeps ((key, binding) ∷ children) t path s build k h =
      and_then-Keeps before _ _ (k.0 t _ _ s h)
        λ v r g. bind_entries-Keeps children t path r (λ vs. build (value_then v vs)) k.1 g

  bind_elements-Keeps :
      (host : Host) (i : ℕ) (elements : List Binding) (t : GoType) (path : Text) (s : Store)
      (build : Values → Value)
      → All (BindingKeeps before) elements
      → Keeps before s
      → Leaves before (bind_elements host i elements t path s build)
  unfolding bind_elements
  bind_elements-Keeps host i [] t path s build k h = record { kept = h }
  bind_elements-Keeps host i (binding ∷ elements) t path s build k h =
      and_then-Keeps before _ _ (k.0 t _ _ s h) λ v r g.
        bind_elements-Keeps host (suc i) elements t path r (λ vs. build (value_then v vs)) k.1 g

  keeping-Keeps : (v : Value) (o : Outcome) → Leaves before o → Leaves before (keeping v o)
  keeping-Keeps v o h = elim (Option-cases o.failure) [
    | inl went ↦ simp (went, keeping) h
    | inr (e, stopped) ↦ simp (stopped, keeping) (record { kept = h.kept })
  ]

  pub with_scalar-Keeps :
      (n : Node) (v : Value) (s : Store) (next : Scalar → Outcome)
      → Keeps before s
      → ((sc : Scalar) → Leaves before (next sc))
      → Leaves before (with_scalar n v s next)
  with_scalar-Keeps (scalar_node o sc) v s next h k = k sc
  with_scalar-Keeps (map_node o fs) v s next h k = record { kept = h }
  with_scalar-Keeps (seq_node o items) v s next h k = record { kept = h }

  pub bind_map-Keeps :
      (n : Node) (children : Dict Binding) (strings : Bool) (t : GoType) (v : Value) (path : Text)
      (s : Store)
      → AllKeep before children
      → Keeps before s
      → Leaves before (bind_map n children strings t v path s)
  unfolding bind_map
  bind_map-Keeps (map_node o fs) children strings t v path s k h =
      if-Keeps before (not strings) _ _ (record { kept = h })
        (keeping-Keeps v _ (bind_entries-Keeps children t path s _ k h))
  bind_map-Keeps (scalar_node o fs) children strings t v path s k h =
      if-Keeps before (not strings) _ _ (record { kept = h }) (record { kept = h })
  bind_map-Keeps (seq_node o fs) children strings t v path s k h =
      if-Keeps before (not strings) _ _ (record { kept = h }) (record { kept = h })

  pub bind_slice-Keeps :
      (host : Host) (n : Node) (elements : List Binding) (t : GoType) (v : Value) (path : Text)
      (s : Store)
      → All (BindingKeeps before) elements
      → Keeps before s
      → Leaves before (bind_slice host n elements t v path s)
  unfolding bind_slice
  bind_slice-Keeps host (seq_node o items) elements t v path s k h =
      keeping-Keeps v _ (bind_elements-Keeps host 0 elements t path s _ k h)
  bind_slice-Keeps host (map_node o items) elements t v path s k h = record { kept = h }
  bind_slice-Keeps host (scalar_node o items) elements t v path s k h = record { kept = h }

  -- A registration is the first of its family in this load, or one more of it.
  touch-Keeps :
      (family : Text) (reg more : Registry Member) (m : Option Member) (selectors : Dict Text)
      (location : Text) (s : Store)
      → lookup family s.families ≡ some reg
      → add_instance m selectors location reg ≡ ok more
      → Keeps before s
      → Keeps before (touch family more (record s { families = insert family more s.families }))
  unfolding touch
  touch-Keeps family reg more m selectors location s found added h =
      let (r, was, adds) = Extends-some (lookup family before) (rw found at (h.grown family)) in
      elim (Bool-cases (has_key family s.touched)) [
        | inl known ↦
            simp (known, touch)
              (touched_before before family s.families s.touched h was
                (one_more m selectors location adds added) known)
        | inr new ↦
            (let start : lookup family before ≡ some reg = sym (h.untouched family new) ∙ found in
              let count = added_one reg more m selectors location added in
              simp (new, touch, count)
                (newly_touched before family s.families s.touched h start
                  (one_more m selectors location no_more added)))
      ]

  pub record_instance-Keeps :
      (family : Text) (m : Member) (selectors : Dict Text) (location : Text) (v : Value) (s : Store)
      → Keeps before s
      → Leaves before (record_instance family m selectors location v s)
  unfolding record_instance
  record_instance-Keeps family m selectors location v s h =
      elim (Option-cases (lookup family s.families)) [
        | inl gone ↦ simp (gone, record_instance) (record { kept = h })
        | inr (reg, found) ↦ elim (Result-cases (add_instance (some m) selectors location reg)) [
          | inr (e, refused) ↦ simp (found, refused, record_instance) (record { kept = h })
          | inl (more, added) ↦
              simp (found, added, record_instance)
                (record {
                  kept = touch-Keeps family reg more (some m) selectors location s found added h;
                })
        ]
      ]

  pub drop_key-AllKeep :
      (k : Text) (children : Dict Binding)
      → AllKeep before children
      → AllKeep before (drop_key k children)
  unfolding drop_key
  drop_key-AllKeep k [] h = tt
  drop_key-AllKeep k ((j, binding) ∷ children) h = elim (Bool-cases (text_eq j k)) [
    | inl same ↦ rw same (drop_key-AllKeep k children h.1)
    | inr other ↦ rw other (h.0, drop_key-AllKeep k children h.1)
  ]
