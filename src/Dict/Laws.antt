-- ===== src/Dict/Laws.antt =====
-- The laws of the maps.
use go_flexconf.Base.{
  [], ◌∷◌, ◌≡◌, some, if◌then◌else◌, arith, refl, true, All, Bool-cases, inl, inr, subst, sym,
}
use go_flexconf.Text.{Text, text_eq}
use go_flexconf.Text.Laws.{text_eq_iff, text_eq_refl}
use go_flexconf.Dict.{Dict, lookup, insert, has_key}

module _ {ℓ} {V : Type ℓ} where
  pub lookup-insert :
      (k j : Text) (v : V) (m : Dict V)
      → lookup j (insert k v m) ≡ (if text_eq k j then some v else lookup j m)
  unfolding lookup insert
  lookup-insert k j v [] = refl
  lookup-insert k j v ((i, w) ∷ m) =
      ground (arith, text_eq_iff k j, text_eq_iff i k, text_eq_iff i j, lookup-insert k j v m)

  pub lookup-insert_self : (k : Text) (v : V) (m : Dict V) → lookup k (insert k v m) ≡ some v
  lookup-insert_self k v m = simp (lookup-insert, text_eq_refl)

  pub has_key-insert :
      (k j : Text) (v : V) (m : Dict V)
      → has_key j (insert k v m) ≡ (if text_eq k j then true else has_key j m)
  unfolding has_key insert
  has_key-insert k j v [] = refl
  has_key-insert k j v ((i, w) ∷ m) =
      ground (arith, text_eq_iff k j, text_eq_iff i k, text_eq_iff i j, has_key-insert k j v m)

module _ {V : Type 0} where
  pub has_key-lookup :
      (k : Text) (m : Dict V) → has_key k m ≡ true → (v : V) × (lookup k m ≡ some v)
  unfolding has_key lookup
  has_key-lookup k [] h = cc
  has_key-lookup k ((j, v) ∷ m) h = elim (Bool-cases (text_eq j k)) [
    | inl same ↦ rw same (v, refl)
    | inr other ↦ rw other (has_key-lookup k m (rw other at h))
  ]

  pub lookup-has_key : (k : Text) (m : Dict V) {v : V} → lookup k m ≡ some v → has_key k m ≡ true
  unfolding has_key lookup
  lookup-has_key k [] h = cc
  lookup-has_key k ((j, v) ∷ m) h = elim (Bool-cases (text_eq j k)) [
    | inl same ↦ rw same refl
    | inr other ↦ rw other (lookup-has_key k m (rw other at h))
  ]

module _ {ℓ κ} {V : Type ℓ} (P : Text × V → Type κ) where
  pub insert-All : (k : Text) (v : V) (m : Dict V) → P (k, v) → All P m → All P (insert k v m)
  unfolding insert
  insert-All k v [] p h = (p, tt)
  insert-All k v ((j, w) ∷ m) p h = elim (Bool-cases (text_eq j k)) [
    | inl same ↦ rw same (subst (λ (i : Text). P (i, v)) (sym ((text_eq_iff j k).0 same)) p, h.1)
    | inr other ↦ rw other (h.0, insert-All k v m p h.1)
  ]

  pub lookup-All : (k : Text) (m : Dict V) {v : V} → All P m → lookup k m ≡ some v → P (k, v)
  unfolding lookup
  lookup-All k [] h e = cc
  lookup-All k ((j, w) ∷ m) {v} h e = elim (Bool-cases (text_eq j k)) [
    | inl same ↦
        let found : some w ≡ some v = rw same at e in
        let same_value : w ≡ v = cc in subst P (λ i. ((text_eq_iff j k).0 same i, same_value i)) h.0
    | inr other ↦ lookup-All k m h.1 (rw other at e)
  ]
