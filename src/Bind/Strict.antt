-- ===== src/Bind/Strict.antt =====
-- A struct that is bound has every required key, and a field for every key.
use go_flexconf.Errors.{ok, Error}
use go_flexconf.Store.{Outcome, failed, Binding, Host, Store, at_index, ◌and_then◌}
use go_flexconf.Base.{
  All, Bool, Bool-cases, List, Option-cases, [], false, false≢true, if◌then◌else◌, inl, inr, none,
  refl, some, sym, true, ◌∙◌, ◌∷◌, ◌≡◌,
}
use go_flexconf.Schema.{Decls, FieldInfo, GoType, find_info, join_path, struct_fields, struct_type}
use go_flexconf.Dict.{Dict, lookup}
use go_flexconf.Text.{Text}
use go_flexconf.Coerce.{Value}
use go_flexconf.Bind.{bind_fields, bind_struct, has_unknown, keys, call_validate}
use go_flexconf.Node.{is_some}

-- Is the key of a required field there?
abbrev pub Provided : Dict Binding → FieldInfo → Type 0
Provided children info = info.required ≡ true → is_some (lookup info.key children) ≡ true

and_then-none :
    (o : Outcome) (next : Value → Store → Outcome)
    → (o and_then next).failure ≡ none
    → (o.failure ≡ none) × ((next o.value o.store).failure ≡ none)
and_then-none o next h = elim (Option-cases o.failure) [
  | inl went ↦ (went, simp (went, ◌and_then◌) at h)
  | inr (e, stopped) ↦ let never : some e ≡ none = simp (stopped, ◌and_then◌) at h in cc
]

if-none :
    (b : Bool) (v : Value) (s : Store) (e : Error) (o : Outcome)
    → (if b then failed v s e else o).failure ≡ none
    → (b ≡ false) × (o.failure ≡ none)
if-none true v s e o h = cc
if-none false v s e o h = (refl, h)

bind_fields-Provided :
    (children : Dict Binding) (infos : List FieldInfo) (t : GoType) (v : Value) (path : Text)
    (s : Store)
    → (bind_fields children infos t v path s).failure ≡ none
    → All (Provided children) infos
unfolding bind_fields
bind_fields-Provided children [] t v path s h = tt
bind_fields-Provided children (info ∷ infos) t v path s h =
    elim (Option-cases (lookup info.key children)) [
      | inl absent ↦
          let rest =
            if-none info.required v s _ (bind_fields children infos t v path s)
              (simp (absent, bind_fields) at h) in
          (
            (λ needed. absurd (false≢true (sym rest.0 ∙ needed))),
            bind_fields-Provided children infos t v path s rest.1,
          )
      | inr (binding, present) ↦
          let rest =
            and_then-none (at_index info.index binding t v (join_path path info.key) s)
              (λ w r. bind_fields children infos t w path r) (simp (present, bind_fields) at h) in
          ((λ needed. simp present refl), bind_fields-Provided children infos t _ path _ rest.1)
    ]

has_unknown-false :
    (names : List Text) (infos : List FieldInfo)
    → has_unknown names infos ≡ false
    → All (λ key. is_some (find_info key infos) ≡ true) names
unfolding has_unknown
has_unknown-false [] infos h = tt
has_unknown-false (key ∷ more) infos h = elim (Bool-cases (is_some (find_info key infos))) [
  | inl known ↦ (known, has_unknown-false more infos (simp (known) at h))
  | inr other ↦ let never : true ≡ false = simp other at h in absurd (false≢true (sym never))
]

-- If Go meets every field of a struct (`every`): when a map is bound to a struct without an error, each
-- of its keys is the key of a field, and each required field of the struct has its key in the map.
pub bind_struct-strict :
    (host : Host) (children : Dict Binding) (name : Text) (ds : Decls) (v : Value) (path : Text)
    (s : Store) (infos : List FieldInfo)
    → (every : (P : FieldInfo → Type 0) (l : List FieldInfo) → All P (host.arrange l) → All P l)
    → struct_fields ds ≡ ok infos
    → (bind_struct host children name ds v path s).failure ≡ none
    → All (λ key. is_some (find_info key infos) ≡ true) (keys children)
      × All (Provided children) infos
unfolding bind_struct
bind_struct-strict host children name ds v path s infos every collected h =
    let (known, more) =
      if-none (has_unknown (keys children) infos) v s _ _ (rw (collected, bind_struct) at h) in
    let (went, valid) =
      and_then-none (bind_fields children (host.arrange infos) (struct_type name ds) v path s)
        (λ w r. call_validate host (struct_type name ds) w r) more in
    (
      has_unknown-false (keys children) infos known,
      every _ _
          (bind_fields-Provided children (host.arrange infos) (struct_type name ds) v path s went),
    )
