-- ===== src/Action.antt =====
-- Code with effects: an action on a state may fail, and what it wrote before stays written.
use go_flexconf.Errors.{Result, ok, err, Error}
use go_flexconf.Base.{refl, ◌≡◌}

abbrev pub Action {ℓ} : Type ℓ → Type ℓ → Type ℓ
Action S A = S → Result A × S

module _ {ℓ} {S A : Type ℓ} where
  abbrev pub return : A → Action S A
  return a s = (ok a, s)

  abbrev pub fail : Error → Action S A
  fail e s = (err e, s)

module _ {ℓ} {S A B : Type ℓ} where
  abbrev pub continue : Result A → (A → Action S B) → Action S B
  continue (ok a) f s = f a s
  continue (err e) f s = (err e, s)

  infixl 5 ◌>>=◌
  abbrev pub ◌>>=◌ : Action S A → (A → Action S B) → Action S B
  ◌>>=◌ m f s = let (r, s') = m s in continue r f s'

module _ {S B : Type 0} where
  infixl 5 ◌>>◌
  abbrev pub ◌>>◌ : Action S (Unit {0}) → Action S B → Action S B
  m >> k = m >>= λ _. k

-- What a chain that returned went through.
continue-returns {ℓ} :
    {S A B : Type ℓ} (r : Result A × S) (f : A → Action S B) {t : S} {b : B}
    → continue r.0 f r.1 ≡ (ok b, t)
    → (a : A) × (r ≡ (ok a, r.1)) × (f a r.1 ≡ (ok b, t))
continue-returns (ok a, u) f h = (a, refl, h)
continue-returns (err e, u) f h = cc

pub >>=-returns {ℓ} :
    {S A B : Type ℓ} (m : Action S A) (f : A → Action S B) (s : S) {t : S} {b : B}
    → (m >>= f) s ≡ (ok b, t)
    → (a : A) × (u : S) × (m s ≡ (ok a, u)) × (f a u ≡ (ok b, t))
>>=-returns m f s h = let (a, e, k) = continue-returns (m s) f h in (a, (m s).1, e, k)
