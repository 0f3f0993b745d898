-- ===== src/Driver/Registered.antt =====
-- flexvault/registry.go: the process-wide driver names. `V` is what a factory makes; a nil factory and
-- a panic are `none`.
use go_flexconf.Dict.{Dict, lookup, insert, has_key, keys}
use go_flexconf.Errors.{Result, ok, err, plain}
use go_flexconf.Text.{Text, text_eq}
use go_flexconf.Text.Sorting.{sort_strings}
use go_flexconf.Base.{
  Bool-cases, List, Option, if◌then◌else◌, inl, inr, is_empty, none, some, true, ◌∙◌, ◌≡◌,
}
use go_flexconf.Dict.Laws.{has_key-insert, lookup-insert}
use go_flexconf.Text.Laws.{text_eq_refl}

module _ {V : Type 0} where
  unfoldable pub register : Text → Option V → Dict V → Option (Dict V)
  unfolding has_key insert
  register name none drivers = none
  register name (some factory) drivers =
      if is_empty name
      then none
      else if has_key name drivers
      then none
      else some (insert name factory drivers)

  abbrev found : Option V → Result V
  found none = err plain
  found (some driver) = ok driver

  -- New
  unfoldable pub new_driver : Text → Dict V → Result V
  unfolding lookup
  new_driver name drivers = found (lookup name drivers)

  -- Drivers
  unfoldable pub driver_names : Dict V → List Text
  unfolding sort_strings
  driver_names drivers = sort_strings (keys drivers)

  register-some :
      (name : Text) (factory : V) (drivers : Dict V) {out : Dict V}
      → register name (some factory) drivers ≡ some out
      → out ≡ insert name factory drivers
  unfolding register
  register-some name factory drivers {out} h = elim (Bool-cases (is_empty name)) [
    | inl empty ↦ let panics : none ≡ some out = rw empty at h in cc
    | inr named ↦ elim (Bool-cases (has_key name drivers)) [
      | inl dup ↦ let panics : none ≡ some out = rw (named, dup) at h in cc
      | inr fresh ↦
          let added : some (insert name factory drivers) ≡ some out = rw (named, fresh) at h in cc
    ]
  ]

  register_again :
      (name : Text) (factory other : V) (drivers : Dict V)
      → register name (some other) (insert name factory drivers) ≡ none
  unfolding register
  register_again name factory other drivers =
      let there : has_key name (insert name factory drivers) ≡ true =
        has_key-insert name name factory drivers ∙ (rw (text_eq_refl name)) in
      elim (Bool-cases (is_empty name)) [ inl empty ↦ rw empty | inr named ↦ rw (named, there) ]

  -- Once a driver is registered, `New` constructs it under its name and every other name as before,
  -- and a second registration of the name panics.
  pub new_driver-register :
      (name n : Text) (factory other : V) (drivers : Dict V) {out : Dict V}
      → register name (some factory) drivers ≡ some out
      → (new_driver n out ≡ (if text_eq name n then ok factory else new_driver n drivers))
        × (register name (some other) out ≡ none)
  unfolding new_driver
  new_driver-register name n factory other drivers h =
      let same = register-some name factory drivers h in
      (
        rw (same, lookup-insert name n factory drivers)
            (elim (Bool-cases (text_eq name n)) [ inl hit ↦ rw hit | inr miss ↦ rw miss ]),
        rw same (register_again name factory other drivers),
      )
