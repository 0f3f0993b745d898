-- ===== src/Errors.antt =====
-- The sentinel errors of flexconf/errors.go, flexconf/template.go, flexvault/errors.go,
-- flexprompt/errors.go, internal/variant/variant.go and internal/agent/proxy.go, errors as values
-- and the two ways in which the sources pass them on.
use go_flexconf.Base.{Bool, true, false, if◌then◌else◌, ◌≡◌, refl, inl, inr, ◌⊎◌}

pub data Sentinel : Type 0 where
  config_not_found unsupported_format invalid_name unknown_field : Sentinel
  missing_required type_mismatch invalid_tag : Sentinel
  bad_token include_embedded include_extension include_escape include_cycle : Sentinel
  include_too_deep unknown_scheme env_not_set file_not_found : Sentinel
  locked not_found read_only unsupported auth not_configured : Sentinel
  prompt_cancelled prompt_unavailable no_prompter : Sentinel
  variant_not_found variant_ambiguous duplicate_variant : Sentinel
  agent_unavailable : Sentinel

-- An error wraps one sentinel or none. The text of its message is not modelled. `panics` stands for a
-- panic, which no function returns: it leaves every function on the way.
pub data Error : Type 0 where
  wraps : Sentinel → Error
  plain : Error
  panics : Error

abbrev pub is_panic : Error → Bool
is_panic panics = true
is_panic _ = false

pub Sentinel-discrete : Discrete Sentinel
Sentinel-discrete = hlevel

pub data Result {ℓ} (A : Type ℓ) : Type ℓ where
  ok : A → Result A
  err : Error → Result A

infixl 5 ◌>>=◌
abbrev pub ◌>>=◌ {ℓ κ} : {V : Type ℓ} {W : Type κ} → Result V → (V → Result W) → Result W
err e >>= next = err e
ok v >>= next = next v

pub >>=-eq-ok {ℓ κ} :
    {V : Type ℓ} {W : Type κ} {w : W} (r : Result V) (next : V → Result W)
    → (r >>= next) ≡ ok w
    → (v : V) × (r ≡ ok v) × (next v ≡ ok w)
>>=-eq-ok (err e) next h = cc
>>=-eq-ok (ok v) next h = (v, refl, h)

-- A check, and then what it guards.
infixl 5 ◌>>◌
abbrev pub ◌>>◌ {ℓ} : {W : Type ℓ} → Result (Unit {0}) → Result W → Result W
check >> rest = check >>= λ u. rest

pub ok_injective {ℓ} : {A : Type ℓ} {a b : A} → ok a ≡ ok b → a ≡ b
ok_injective h = cc

pub err_ne_ok {ℓ} : {A : Type ℓ} {e : Error} {a : A} → err e ≡ ok a → ⊥
err_ne_ok h = cc

pub Result-cases {ℓ} :
    {A : Type ℓ} (r : Result A) → ((a : A) × (r ≡ ok a)) ⊎ ((e : Error) × (r ≡ err e))
Result-cases (ok a) = inl (a, refl)
Result-cases (err e) = inr (e, refl)

-- What a guard lets through.
pub guard_passed {ℓ} :
    {A : Type ℓ} (b : Bool) (e : Error) {r : Result A} {a : A}
    → (if b then err e else r) ≡ ok a
    → (b ≡ false) × (r ≡ ok a)
guard_passed true e h = absurd (err_ne_ok h)
guard_passed false e h = (refl, h)
