-- ===== src/Fuel.antt =====
-- Code that may fail and may not end: `none` means that it does not end, or that its fuel ran out.
use go_flexconf.Errors.{Error, Result, ok, err}
use go_flexconf.Base.{Option, none, some, refl, inl, inr, ◌≡◌, ◌⊎◌}

abbrev pub Fueled : Type 0 → Type 0
Fueled A = Option (Result A)

infixl 5 ◌>>=◌
abbrev pub ◌>>=◌ : {A B : Type 0} → Fueled A → (A → Fueled B) → Fueled B
none >>= f = none
some (err e) >>= f = some (err e)
some (ok a) >>= f = f a

abbrev pub done : {A : Type 0} → A → Fueled A
done a = some (ok a)

-- The run came to an end.
abbrev pub Ends : {A : Type 0} → Fueled A → Type 0
Ends {A} m = (r : Result A) × (m ≡ some r)

pub >>=-Ends :
    {A B : Type 0} (m : Fueled A) (f : A → Fueled B)
    → Ends m
    → ((a : A) → Ends (f a))
    → Ends (m >>= f)
>>=-Ends none f h k = cc
>>=-Ends (some (err e)) f h k = (err e, refl)
>>=-Ends (some (ok a)) f h k = k a

pub >>=-eq-done :
    {A B : Type 0} {b : B} (m : Fueled A) (f : A → Fueled B)
    → (m >>= f) ≡ done b
    → (a : A) × (m ≡ done a) × (f a ≡ done b)
>>=-eq-done none f h = cc
>>=-eq-done (some (err e)) f h = cc
>>=-eq-done (some (ok a)) f h = (a, refl, h)

pub done_injective : {A : Type 0} {a b : A} → done a ≡ done b → a ≡ b
done_injective h = cc

pub failed_ne_done : {A : Type 0} {e : Error} {a : A} → some (err e) ≡ done a → ⊥
failed_ne_done h = cc

-- It does not end, fails or has a result.
pub Fueled-cases :
    {A : Type 0} (m : Fueled A)
    → (m ≡ none) ⊎ (((e : Error) × (m ≡ some (err e))) ⊎ ((a : A) × (m ≡ done a)))
Fueled-cases none = inl refl
Fueled-cases (some (err e)) = inr (inl (e, refl))
Fueled-cases (some (ok a)) = inr (inr (a, refl))
