-- ===== src/Variant/Resolving.antt =====
-- `Resolve` finds an instance exactly when it is the only one that the selectors fit.
use go_flexconf.Variant.{
  Instance, Registry, Selector, matches_all, matching, only, resolve, value_at,
}
use go_flexconf.Base.{
  All, Bool-cases, List, [], false, false≢true, inl, inr, refl, sym, true, ◌++◌, ◌↔◌, ◌∙◌, ◌∷◌, ◌≡◌,
  ap,
}
use go_flexconf.Text.{text_eq}
use go_flexconf.Text.Laws.{text_eq_iff}
use go_flexconf.Errors.{ok, ok_injective}

-- Every selector's key holds its value, where an absent key counts as the empty string.
abbrev pub Fits : {V : Type 0} → List Selector → Instance V → Type 0
Fits sel i = All (λ s. value_at i.selectors s.key ≡ s.value) sel

-- The instance is there, fits, and no other one fits.
pub record TheOne {V : Type 0} (sel : List Selector) (instances : List (Instance V)) (v : V)
    : Type 0 where
  pub before : List (Instance V)
  pub one : Instance V
  pub after : List (Instance V)
  pub there : instances ≡ before ++ one ∷ after
  pub its_value : one.value ≡ v
  pub fits : Fits sel one
  pub none_before : All (λ i. Fits sel i → ⊥) before
  pub none_after : All (λ i. Fits sel i → ⊥) after

module _ {V : Type 0} where
  matches_all-Fits :
      (i : Instance V) (sel : List Selector) → (matches_all i.selectors sel ≡ true) ↔ Fits sel i
  unfolding matches_all
  matches_all-Fits i [] = (λ h. tt, λ h. refl)
  matches_all-Fits i (s ∷ sel) = elim (Bool-cases (text_eq (value_at i.selectors s.key) s.value)) [
    | inl same ↦ rw same (
      λ h. ((text_eq_iff _ _).0 same, (matches_all-Fits i sel).0 h),
      λ h. (matches_all-Fits i sel).1 h.1,
    )
    | inr other ↦ rw other (λ h. cc, λ h. absurd (false≢true (sym other ∙ (text_eq_iff _ _).1 h.0)))
  ]

  unfit :
      (i : Instance V) (sel : List Selector) → matches_all i.selectors sel ≡ false → Fits sel i → ⊥
  unfit i sel h f = false≢true (sym h ∙ (matches_all-Fits i sel).1 f)

  matching-hit :
      (sel : List Selector) (i : Instance V) (l : List (Instance V))
      → matches_all i.selectors sel ≡ true
      → matching sel (i ∷ l) ≡ i ∷ matching sel l
  unfolding matching
  matching-hit sel i l h = rw h

  matching-miss :
      (sel : List Selector) (i : Instance V) (l : List (Instance V))
      → matches_all i.selectors sel ≡ false
      → matching sel (i ∷ l) ≡ matching sel l
  unfolding matching
  matching-miss sel i l h = rw h

  matching-none :
      (sel : List Selector) (l : List (Instance V))
      → matching sel l ≡ []
      → All (λ i. Fits sel i → ⊥) l
  matching-none sel [] h = tt
  matching-none sel (i ∷ l) h = elim (Bool-cases (matches_all i.selectors sel)) [
    | inl fits ↦ let found : i ∷ matching sel l ≡ [] = sym (matching-hit sel i l fits) ∙ h in cc
    | inr not_fits ↦
        (unfit i sel not_fits, matching-none sel l (sym (matching-miss sel i l not_fits) ∙ h))
  ]

  none-matching :
      (sel : List Selector) (l : List (Instance V))
      → All (λ i. Fits sel i → ⊥) l
      → matching sel l ≡ []
  unfolding matching
  none-matching sel [] h = refl
  none-matching sel (i ∷ l) h = elim (Bool-cases (matches_all i.selectors sel)) [
    | inl fits ↦ absurd (h.0 ((matches_all-Fits i sel).0 fits))
    | inr not_fits ↦ matching-miss sel i l not_fits ∙ none-matching sel l h.1
  ]

  matching-append :
      (sel : List Selector) (l rest : List (Instance V))
      → matching sel (l ++ rest) ≡ matching sel l ++ matching sel rest
  unfolding matching
  matching-append sel [] rest = refl
  matching-append sel (i ∷ l) rest = elim (Bool-cases (matches_all i.selectors sel)) [
    | inl fits ↦ rw fits (ap (◌∷◌ i) (matching-append sel l rest))
    | inr not_fits ↦ rw not_fits (matching-append sel l rest)
  ]

  only_first :
      {v : V} (i : Instance V) (l : List (Instance V))
      → only (i ∷ l) ≡ ok v
      → (l ≡ []) × (i.value ≡ v)
  only_first i [] h = (refl, ok_injective h)
  only_first i (j ∷ l) h = cc

  -- An instance that is passed over stands before the one.
  passed :
      {v : V} (sel : List Selector) (i : Instance V) (l : List (Instance V))
      → (Fits sel i → ⊥)
      → TheOne sel l v
      → TheOne sel (i ∷ l) v
  passed sel i l miss o = record {
    before = i ∷ o.before;
    one = o.one;
    after = o.after;
    there = ap (◌∷◌ i) o.there;
    its_value = o.its_value;
    fits = o.fits;
    none_before = (miss, o.none_before);
    none_after = o.none_after;
  }

  matching-TheOne :
      {v : V} (sel : List Selector) (l : List (Instance V))
      → only (matching sel l) ≡ ok v
      → TheOne sel l v
  unfolding matching
  matching-TheOne sel [] h = cc
  matching-TheOne {v} sel (i ∷ l) h = elim (Bool-cases (matches_all i.selectors sel)) [
    | inl fits ↦
        let alone = only_first i (matching sel l) (ap only (sym (matching-hit sel i l fits)) ∙ h) in
        record {
          before = [];
          one = i;
          after = l;
          there = refl;
          its_value = alone.1;
          fits = (matches_all-Fits i sel).0 fits;
          none_before = tt;
          none_after = matching-none sel l alone.0;
        }
    | inr not_fits ↦
        passed sel i l (unfit i sel not_fits)
          (matching-TheOne sel l (ap only (sym (matching-miss sel i l not_fits)) ∙ h))
  ]

  TheOne-matching :
      {v : V} (sel : List Selector) (l : List (Instance V)) (o : TheOne sel l v)
      → matching sel l ≡ o.one ∷ []
  TheOne-matching sel l o =
      ap (matching sel) o.there
      ∙ matching-append sel o.before (o.one ∷ o.after)
      ∙ ap (λ xs. xs ++ matching sel (o.one ∷ o.after)) (none-matching sel o.before o.none_before)
      ∙ matching-hit sel o.one o.after ((matches_all-Fits o.one sel).1 o.fits)
      ∙ ap (◌∷◌ o.one) (none-matching sel o.after o.none_after)

  -- `Resolve` returns the value of an instance exactly when that instance fits the selectors and no
  -- other instance of the registry does.
  pub resolve_iff :
      (sel : List Selector) (r : Registry V) (v : V)
      → (resolve sel r ≡ ok v) ↔ TheOne sel r.instances v
  unfolding resolve
  resolve_iff sel r v = (
    matching-TheOne sel r.instances,
    λ o. ap only (TheOne-matching sel r.instances o) ∙ ap ok o.its_value,
  )
