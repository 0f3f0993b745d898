-- ===== src/Variant/Families.antt =====
-- flexconf/variants.go: the process-wide registries, by the name of a family's interface type, and those
-- that a Loader has itself. A family's registry holds values of one type for all families.
use go_flexconf.Variant
use go_flexconf.Variant.{Registry, Selector, new_registry, register_variant, matching, only}
use go_flexconf.Dict.{Dict, lookup, insert, has_key}
use go_flexconf.Dict.Laws.{lookup-insert}
use go_flexconf.Errors.{Result, err, wraps, variant_not_found}
use go_flexconf.Text.{Text, text_eq}
use go_flexconf.Base.{
  List, Option, [], none, some, ◌++◌, ◌∷◌, ◌≡◌, Bool-cases, ap, inl, inr, is_empty, refl,
  some_injective, subst, sym, ◌∙◌,
}
use go_flexconf.Text.Laws.{text_eq_iff}

module _ {V : Type 0} where
  abbrev family_of : Option (Registry V) → Registry V
  family_of none = new_registry none
  family_of (some r) = r

  abbrev with_family : Text → Dict (Registry V) → Option (Registry V) → Option (Dict (Registry V))
  with_family t families none = none
  with_family t families (some r) = some (insert t r families)

  -- RegisterVariant; a panic is `none`
  unfoldable pub register_in_family :
      Text → Text → Option V → Dict (Registry V) → Option (Dict (Registry V))
  unfolding lookup insert register_variant
  register_in_family t name factory families =
      with_family t families (register_variant name factory (family_of (lookup t families)))

  abbrev resolved_in : List Selector → Option (Registry V) → Result V
  resolved_in sel none = err (wraps variant_not_found)
  resolved_in sel (some r) = Variant.resolve sel r

  -- Get
  unfoldable pub get_instance : Text → List Selector → Dict (Registry V) → Result V
  unfolding lookup Variant.resolve
  get_instance t sel families = resolved_in sel (lookup t families)

  -- WithRegistry, for a registry of a family
  abbrev pub with_registry : Text → Registry V → Dict (Registry V) → Dict (Registry V)
  with_registry t r explicit = explicit ++ (t, r) ∷ []

  abbrev or_process : Option (Registry V) → Option (Registry V) → Option (Registry V)
  or_process none process = process
  or_process (some r) process = some r

  -- registryFor and processRegistryFor: the first explicit registry of the family, or the
  -- process-wide one
  unfoldable pub registry_for : Text → Dict (Registry V) → Dict (Registry V) → Option (Registry V)
  unfolding lookup
  registry_for t explicit process = or_process (lookup t explicit) (lookup t process)

  register_variant-instances :
      (name : Text) (factory : Option V) (r : Registry V) {out : Registry V}
      → register_variant name factory r ≡ some out
      → out.instances ≡ r.instances
  unfolding register_variant
  register_variant-instances name none r h = cc
  register_variant-instances name (some f) r {out} h = elim (Bool-cases (is_empty name)) [
    | inl empty ↦ let n : none ≡ some out = rw empty at h in cc
    | inr named ↦ elim (Bool-cases (has_key name r.variants)) [
      | inl dup ↦ let n : none ≡ some out = rw (named, dup) at h in cc
      | inr fresh ↦
          let e : some (record r { variants = insert name f r.variants }) ≡ some out =
            rw (named, fresh) at h in
          ap (λ (q : Registry V). q.instances) (sym (some_injective e))
    ]
  ]

  resolved_in-registered :
      (name : Text) (factory : Option V) (old : Option (Registry V)) (sel : List Selector)
      {r : Registry V}
      → register_variant name factory (family_of old) ≡ some r
      → resolved_in sel (some r) ≡ resolved_in sel old
  unfolding Variant.resolve
  resolved_in-registered name factory none sel h =
      ap (λ l. only (matching sel l))
        (register_variant-instances name factory (new_registry none) h)
      ∙ (unfold matching in refl)
  resolved_in-registered name factory (some old) sel h =
      ap (λ l. only (matching sel l)) (register_variant-instances name factory old h)

  with_family-some :
      (t : Text) (families : Dict (Registry V)) (o : Option (Registry V)) {out : Dict (Registry V)}
      → with_family t families o ≡ some out
      → (r : Registry V) × (o ≡ some r) × (out ≡ insert t r families)
  with_family-some t families none h = cc
  with_family-some t families (some r) h = (r, refl, sym (some_injective h))

  -- Registering a variant changes what `Get` returns for no family and no selectors.
  pub get_instance-register_in_family :
      (t name : Text) (factory : Option V) (families out : Dict (Registry V)) (u : Text)
      (sel : List Selector)
      → register_in_family t name factory families ≡ some out
      → get_instance u sel out ≡ get_instance u sel families
  unfolding register_in_family get_instance
  get_instance-register_in_family t name factory families out u sel h =
      let (r, made, same) = with_family-some t families _ h in
      elim (Bool-cases (text_eq t u)) [
        | inr other ↦ rw (same, lookup-insert t u r families, other) refl
        | inl hit ↦
            let e = (text_eq_iff t u).0 hit in
            rw (same, lookup-insert t u r families, hit)
              (subst (λ k. resolved_in sel (some r) ≡ resolved_in sel (lookup k families)) e
                (resolved_in-registered name factory (lookup t families) sel made))
      ]
