-- ===== src/Coerce/Bounds.antt =====
-- The numbers that come out of a conversion are in the range of their type.
use go_flexconf.Coerce.{
  int_value, uint_value, Value, signed, within, text_value, bool_value, float_value, FloatParser,
  as_value, coerce_scalar, negated, parse_digits, parse_int, parse_uint,
}
use go_flexconf.Base.Int.{pos, negsuc, ℤ}
use go_flexconf.Schema.{int_kind, uint_kind, string_kind, bool_kind, other_kind, float_kind, Kind}
use go_flexconf.Base.{
  Bool, Option, arith, none, some, ℕ, ◌-◌, ◌<◌, ◌^◌, ◌≡◌, [], false, if◌then◌else◌, is_empty, leb,
  ltb, refl, some_injective, subst, suc, sym, true, zero, ◌∷◌, Bool-cases, inl, inr, ◌==◌,
}
use go_flexconf.Text.{Text}

-- From -cutoff to cutoff - 1.
abbrev pub Below : ℕ → ℤ → Type 0
Below cutoff (pos n) = n < cutoff
Below cutoff (negsuc n) = n < cutoff

-- The range of a signed integer of some bits.
abbrev pub Signed : ℕ → ℤ → Type 0
Signed bits z = Below (2 ^ (bits - 1)) z

-- What fits the kind.
abbrev pub Fits : Kind → Value → Type 0
Fits (int_kind bits) v = (z : ℤ) × (v ≡ int_value z) × Signed bits z
Fits (uint_kind bits) v = (n : ℕ) × (v ≡ uint_value n) × (n < 2 ^ bits)
Fits string_kind v = (s : Text) × (v ≡ text_value s)
Fits bool_kind v = (b : Bool) × (v ≡ bool_value b)
Fits (float_kind bits) v = (f : ℕ) × (v ≡ float_value f)
Fits other_kind v = ⊥

within-bound : (limit : ℕ) (o : Option ℕ) {n : ℕ} → within limit o ≡ some n → n < limit
within-bound limit none h = cc
within-bound limit (some m) {n} h = ground arith

let_through :
    {A : Type 0} (b : Bool) {r : Option A} {a : A}
    → (if b then none else r) ≡ some a
    → (b ≡ false) × (r ≡ some a)
let_through true h = cc
let_through false h = (refl, h)

negated-Below : (cutoff n : ℕ) → 0 < cutoff → ltb cutoff n ≡ false → Below cutoff (negated n)
negated-Below cutoff zero p h = p
negated-Below cutoff (suc n) p h = ground arith

signed-Below :
    (cutoff : ℕ) (negative : Bool) (o : Option ℕ) {z : ℤ}
    → 0 < cutoff
    → signed cutoff negative o ≡ some z
    → Below cutoff z
signed-Below cutoff negative none p h = cc
signed-Below cutoff true (some n) {z} p h =
    let (small, e) = let_through (ltb cutoff n) h in
    let same : negated n ≡ z = some_injective e in
    subst (Below cutoff) same (negated-Below cutoff n p small)
signed-Below cutoff false (some n) {z} p h =
    let (small, e) = let_through (leb cutoff n) h in
    let same : pos n ≡ z = some_injective e in
    let less : n < cutoff = ground arith in subst (Below cutoff) same less

two_pow_pos : (n : ℕ) → 0 < 2 ^ n
two_pow_pos zero = omega arith
two_pow_pos (suc n) = let h = two_pow_pos n in omega arith

parse_int-Signed : (bits : ℕ) (s : Text) {z : ℤ} → parse_int bits s ≡ some z → Signed bits z
unfolding parse_int
parse_int-Signed bits [] h = cc
parse_int-Signed bits (c ∷ s) h =
    let half = two_pow_pos (bits - 1) in
    elim (Bool-cases (c == b'-')) [
      | inl minus ↦ signed-Below _ true (parse_uint bits s) half (rw minus at h)
      | inr other ↦ elim (Bool-cases (c == b'+')) [
        | inl plus ↦ signed-Below _ false (parse_uint bits s) half (rw (other, plus) at h)
        | inr digit ↦ signed-Below _ false (parse_uint bits (c ∷ s)) half (rw (other, digit) at h)
      ]
    ]

parse_uint-bound : (bits : ℕ) (s : Text) {n : ℕ} → parse_uint bits s ≡ some n → n < 2 ^ bits
unfolding parse_uint
parse_uint-bound bits s h =
    within-bound (2 ^ bits) (parse_digits s 0) (let_through (is_empty s) h).1

as_value-some :
    {A : Type 0} (f : A → Value) (o : Option A) {v : Value}
    → as_value f o ≡ some v
    → (a : A) × (o ≡ some a) × (v ≡ f a)
as_value-some f none h = cc
as_value-some f (some a) h = (a, refl, sym (some_injective h))

-- A scalar that binds to a field of a basic kind gives a value of that kind, and an integer that the
-- field's width holds: from -2^(w-1) to 2^(w-1) - 1 for a signed field of w bits, and below 2^w for an unsigned one.
pub coerce_scalar-Fits :
    (floats : FloatParser) (k : Kind) (s : Text) (v : Value)
    → coerce_scalar floats k s ≡ some v
    → Fits k v
unfolding coerce_scalar
coerce_scalar-Fits floats string_kind s v h = (s, sym (some_injective h))
coerce_scalar-Fits floats bool_kind s v h =
    let (b, read, same) = as_value-some bool_value _ h in (b, same)
coerce_scalar-Fits floats (int_kind bits) s v h =
    let (z, read, same) = as_value-some int_value _ h in (z, same, parse_int-Signed bits s read)
coerce_scalar-Fits floats (uint_kind bits) s v h =
    let (n, read, same) = as_value-some uint_value _ h in (n, same, parse_uint-bound bits s read)
coerce_scalar-Fits floats (float_kind bits) s v h =
    let (f, read, same) = as_value-some float_value _ h in (f, same)
coerce_scalar-Fits floats other_kind s v h = cc
