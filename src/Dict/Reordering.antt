-- ===== src/Dict/Reordering.antt =====
-- The entries of a map in another order, as Go may iterate them.
use mathlib.Core.List.{Permᴰ}
use go_flexconf.Dict.{Dict, lookup, has_key}
use go_flexconf.Text.{Text, text_eq}
use go_flexconf.Text.Laws.{text_eq_iff}
use go_flexconf.Base.{
  Bool-cases, if◌then◌else◌, [], arith, false, true, some, refl, ◌∷◌, ◌≡◌, ◌∙◌, ap, ap₂, sym, inl,
  inr, subst,
}

-- The keys of a Go map are distinct.
abbrev pub Distinct : {V : Type 0} → Dict V → Type 0
Distinct [] = Unit
Distinct ((k, v) ∷ m) = (has_key k m ≡ false) × Distinct m

module _ {V : Type 0} where
  has_key-swap :
      (k : Text) (a b : Text × V) (l : Dict V) → has_key k (a ∷ b ∷ l) ≡ has_key k (b ∷ a ∷ l)
  unfolding has_key
  has_key-swap k a b l = ground arith

  Distinct-swap : (a b : Text × V) (l : Dict V) → Distinct (a ∷ b ∷ l) → Distinct (b ∷ a ∷ l)
  unfolding has_key
  Distinct-swap a b l (da, (db, d)) = elim (Bool-cases (text_eq a.0 b.0)) [
    | inl same ↦ ground (arith, text_eq_iff a.0 b.0, text_eq_iff b.0 a.0, same, da)
    | inr apart ↦ (ground (arith, text_eq_iff a.0 b.0, apart, db), (ground (arith, da), d))
  ]

  lookup-swap :
      (k : Text) (a b : Text × V) (l : Dict V)
      → Distinct (a ∷ b ∷ l)
      → lookup k (a ∷ b ∷ l) ≡ lookup k (b ∷ a ∷ l)
  unfolding lookup has_key
  lookup-swap k a b l (da, d) =
      ground (arith, text_eq_iff a.0 k, text_eq_iff b.0 k, text_eq_iff b.0 a.0, da)

  has_key-Perm : (k : Text) {m m' : Dict V} → Permᴰ m m' → has_key k m ≡ has_key k m'
  unfolding has_key
  has_key-Perm k Permᴰ.nil = refl
  has_key-Perm k (Permᴰ.cons e p) =
      ap₂ (λ (x : Text × V) b. if text_eq x.0 k then true else b) e (has_key-Perm k p)
  has_key-Perm k (Permᴰ.swap {a} {b} {l = l} e e') =
      has_key-swap k a b l ∙ ap₂ (λ x y. has_key k (x ∷ y ∷ l)) e' e
  has_key-Perm k (Permᴰ.trans p q) = has_key-Perm k p ∙ has_key-Perm k q

  pub Distinct-Perm : {m m' : Dict V} → Permᴰ m m' → Distinct m → Distinct m'
  unfolding has_key
  Distinct-Perm Permᴰ.nil d = d
  Distinct-Perm (Permᴰ.cons {a} {b} {l₁} {l₂} e p) d =
      let same : has_key b.0 l₂ ≡ has_key a.0 l₁ =
        sym (ap (λ (x : Text × V). has_key x.0 l₁) e ∙ has_key-Perm b.0 p) in
      (same ∙ d.0, Distinct-Perm p d.1)
  Distinct-Perm (Permᴰ.swap {a} {b} {l = l} e e') d =
      subst (λ (m : Dict V). Distinct m) (ap₂ (λ x y. x ∷ y ∷ l) e' e) (Distinct-swap a b l d)
  Distinct-Perm (Permᴰ.trans p q) d = Distinct-Perm q (Distinct-Perm p d)

  pub lookup-Perm : (k : Text) {m m' : Dict V} → Permᴰ m m' → Distinct m → lookup k m ≡ lookup k m'
  unfolding lookup has_key
  lookup-Perm k Permᴰ.nil d = refl
  lookup-Perm k (Permᴰ.cons e p) d =
      ap₂ (λ (x : Text × V) o. if text_eq x.0 k then some x.1 else o) e (lookup-Perm k p d.1)
  lookup-Perm k (Permᴰ.swap {a} {b} {l = l} e e') d =
      lookup-swap k a b l d ∙ ap₂ (λ x y. lookup k (x ∷ y ∷ l)) e' e
  lookup-Perm k (Permᴰ.trans p q) d = lookup-Perm k p d ∙ lookup-Perm k q (Distinct-Perm p d)
