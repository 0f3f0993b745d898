-- ===== src/Settings/Assigned.antt =====
-- What a decoder of a map leaves in the fields.
use go_flexconf.Settings.{
  Slot, Struct, Setting, Reflect, assign_value, written, set_first, after_first, assign_at,
  decode_keys, decode_map, field_key, place, places, assign_key, Decoded, with_written,
}
use go_flexconf.Schema.{Kind}
use go_flexconf.Coerce.{Value, FloatParser}
use go_flexconf.Dict.{Dict, lookup, has_key}
use go_flexconf.Dict.Laws.{lookup-insert}
use go_flexconf.Dict.Reordering.{Distinct}
use go_flexconf.Text.{Text, text_eq}
use go_flexconf.Text.Laws.{text_eq_iff}
use go_flexconf.Errors.{Result, ok, err_ne_ok}
use go_flexconf.Base.{
  Bool, Bool-cases, Option, [], arith, false, none, refl, some, some_injective, suc, sym, true,
  zero, ℕ, ◌+◌, ◌∷◌, ◌≡◌, ◌∙◌, ◌⊎◌, inl, inr, ap, subst,
}

-- The field of a position.
abbrev pub field_at : ℕ → Struct → Option Slot
field_at i [] = none
field_at zero (slot ∷ slots) = some slot
field_at (suc i) (slot ∷ slots) = field_at i slots

-- An assignment writes the field of its position.
abbrev Wrote : (Kind → Option Value) → ℕ → Struct → Struct → Type 0
Wrote f i s t =
    (slot : Slot) × (x : Value) × (field_at i s ≡ some slot)
    × (f slot.kind ≡ some x)
    × (field_at i t ≡ some (record slot { value = x }))

set_first-Wrote :
    (f : Kind → Option Value) (slot : Slot) (slots t : Struct) (o : Option Value)
    → f slot.kind ≡ o
    → set_first slots (written slot o) ≡ some t
    → Wrote f zero (slot ∷ slots) t
set_first-Wrote f slot slots t none e h = cc
set_first-Wrote f slot slots t (some x) e h =
    (slot, x, refl, e, sym (ap (field_at zero) (some_injective h)))

after_first-some :
    (slot : Slot) (t : Struct) (o : Option Struct)
    → after_first slot o ≡ some t
    → (u : Struct) × (o ≡ some u) × (slot ∷ u ≡ t)
after_first-some slot t none h = cc
after_first-some slot t (some u) h = (u, refl, some_injective h)

assign_at-Wrote :
    (f : Kind → Option Value) (i : ℕ) (s t : Struct) → assign_at f i s ≡ some t → Wrote f i s t
unfolding assign_at
assign_at-Wrote f zero [] t h = cc
assign_at-Wrote f (suc i) [] t h = cc
assign_at-Wrote f zero (slot ∷ slots) t h = set_first-Wrote f slot slots t (f slot.kind) refl h
assign_at-Wrote f (suc i) (slot ∷ slots) t h =
    let (u, e, same) = after_first-some slot t (assign_at f i slots) h in
    let (old, x, there, taken, now) = assign_at-Wrote f i slots u e in
    (old, x, there, taken, sym (ap (field_at (suc i)) same) ∙ now)

set_first-others :
    (j : ℕ) (slot : Slot) (slots t : Struct) (o : Option Value)
    → set_first slots (written slot o) ≡ some t
    → field_at (suc j) t ≡ field_at j slots
set_first-others j slot slots t none h = cc
set_first-others j slot slots t (some x) h = sym (ap (field_at (suc j)) (some_injective h))

-- And no other.
assign_at-others :
    (f : Kind → Option Value) (i j : ℕ) (s t : Struct)
    → ¬ (i ≡ j)
    → assign_at f i s ≡ some t
    → field_at j t ≡ field_at j s
unfolding assign_at
assign_at-others f zero j [] t n h = cc
assign_at-others f (suc i) j [] t n h = cc
assign_at-others f zero zero (slot ∷ slots) t n h = absurd (n refl)
assign_at-others f zero (suc j) (slot ∷ slots) t n h =
    set_first-others j slot slots t (f slot.kind) h
assign_at-others f (suc i) zero (slot ∷ slots) t n h =
    let (u, e, same) = after_first-some slot t (assign_at f i slots) h in
    sym (ap (field_at zero) same)
assign_at-others f (suc i) (suc j) (slot ∷ slots) t n h =
    let (u, e, same) = after_first-some slot t (assign_at f i slots) h in
    sym (ap (field_at (suc j)) same) ∙ assign_at-others f i j slots u (λ e. n (ap (λ k. suc k) e)) e

-- A place is that of a field with the key.
abbrev Keyed : Struct → ℕ → Text → Type 0
Keyed s i key = (slot : Slot) × (field_at i s ≡ some slot) × (field_key slot.decl ≡ some key)

place-cases :
    (key : Text) (o : Option Text) (i n : ℕ) (fields : Dict ℕ)
    → lookup key (place o n fields) ≡ some i
    → ((o ≡ some key) × (i ≡ n)) ⊎ (lookup key fields ≡ some i)
place-cases key none i n fields h = inr h
place-cases key (some k) i n fields h = elim (Bool-cases (text_eq k key)) [
  | inl same ↦
      let found : some n ≡ some i = rw same at (sym (lookup-insert k key n fields) ∙ h) in
      inl (ap (λ t. some t) ((text_eq_iff k key).0 same), sym (some_injective found))
  | inr other ↦ inr (rw other at (sym (lookup-insert k key n fields) ∙ h))
]

places-Keyed :
    (key : Text) (i n : ℕ) (s : Struct) (fields : Dict ℕ)
    → lookup key (places n s fields) ≡ some i
    → ((j : ℕ) × (i ≡ n + j) × Keyed s j key) ⊎ (lookup key fields ≡ some i)
unfolding places
places-Keyed key i n [] fields h = inr h
places-Keyed key i n (slot ∷ slots) fields h =
    elim (places-Keyed key i (suc n) slots (place (field_key slot.decl) n fields) h) [
      | inl later ↦ let (j, e, keyed) = later in inl (suc j, omega (arith, e), keyed)
      | inr earlier ↦ elim (place-cases key (field_key slot.decl) i n fields earlier) [
        | inl here ↦ let (same, e) = here in inl (0, omega (arith, e), (slot, refl, same))
        | inr before ↦ inr before
      ]
    ]

placed-Keyed :
    (key : Text) (i : ℕ) (s : Struct) → lookup key (places 0 s []) ≡ some i → Keyed s i key
placed-Keyed key i s h = elim (places-Keyed key i 0 s [] h) [
  | inl found ↦
      let (j, e, keyed) = found in
      let same : j ≡ i = omega (arith, e) in subst (λ (a : ℕ). Keyed s a key) same keyed
  | inr empty ↦ let n : none ≡ some i = unfold lookup in empty in cc
]

-- Two keys have two places.
abbrev Apart : Dict ℕ → Type 0
Apart fields = (k l : Text) (i : ℕ) → lookup k fields ≡ some i → lookup l fields ≡ some i → k ≡ l

placed-Apart : (s : Struct) → Apart (places 0 s [])
placed-Apart s k l i h g =
    let (a, there, key_a) = placed-Keyed k i s h in
    let (b, here, key_b) = placed-Keyed l i s g in
    let same : a ≡ b = some_injective (sym there ∙ here) in
    some_injective (sym key_a ∙ ap (λ (slot : Slot). field_key slot.decl) same ∙ key_b)

-- A key that was assigned has a place, and the rest was decoded from what that left.
assign_key-ok :
    (f : Kind → Option Value) (s out : Struct) (next : Struct → Decoded) (o : Option ℕ)
    → assign_key f s next o ≡ (ok tt, out)
    → (i : ℕ) × (t : Struct) × (o ≡ some i) × (assign_at f i s ≡ some t) × (next t ≡ (ok tt, out))
assign_key-ok f s out next none h = absurd (err_ne_ok (ap (λ (d : Decoded). d.0) h))
assign_key-ok f s out next (some i) h = through (assign_at f i s) refl h
  where
    through :
        (o : Option Struct)
        → assign_at f i s ≡ o
        → with_written s next o ≡ (ok tt, out)
        → (j : ℕ) × (t : Struct) × (some i ≡ some j)
          × (assign_at f j s ≡ some t)
          × (next t ≡ (ok tt, out))
    through none e k = absurd (err_ne_ok (ap (λ (d : Decoded). d.0) k))
    through (some t) e k = (i, t, refl, e, k)

new_key :
    {V : Type 0} (fields : Dict ℕ) (m : Dict V) (key : Text) (i : ℕ)
    → Apart fields
    → has_key key m ≡ false
    → lookup key fields ≡ some i
    → (k : Text) → has_key k m ≡ true
    → ¬ (lookup k fields ≡ some i)
new_key fields m key i apart new placed k named there =
    let same : k ≡ key = apart k key i there placed in
    let both : true ≡ false = sym named ∙ ap (λ (a : Text). has_key a m) same ∙ new in cc

-- The map has the key of a field that is not skipped.
abbrev pub named : {V : Type 0} → Option Text → Dict V → Bool
named none m = false
named (some key) m = has_key key m

both_same : (d : Decoded) (out : Struct) → d.0 ≡ ok tt → d.1 ≡ out → d ≡ (ok tt, out)
both_same (result, t) out h g = λ i. (h i, g i)

module _ {V : Type 0} (floats : FloatParser) (r : Reflect V) where
  decode_keys-others :
      (fields : Dict ℕ) (m : Dict (Setting V)) (j : ℕ) (s out : Struct)
      → ((key : Text) → has_key key m ≡ true → ¬ (lookup key fields ≡ some j))
      → decode_keys floats r fields m s ≡ (ok tt, out)
      → field_at j out ≡ field_at j s
  unfolding decode_keys has_key
  decode_keys-others fields [] j s out n h = sym (ap (λ (d : Decoded). field_at j d.1) h)
  decode_keys-others fields ((key, v) ∷ m) j s out n h =
      let (i, t, placed, assigned, rest) =
        assign_key-ok (λ k. assign_value floats r k v) s out (decode_keys floats r fields m)
          (lookup key fields) h in
      decode_keys-others fields m j t out (λ k named. n k (ground (arith, named))) rest
      ∙ assign_at-others (λ k. assign_value floats r k v) i j s t
          (λ same. n key (ground (arith, text_eq_iff key key)) (placed ∙ ap (λ a. some a) same))
          assigned

  decode_keys-assigned :
      (fields : Dict ℕ) (m : Dict (Setting V)) (s out : Struct) (key : Text) (v : Setting V)
      → Apart fields
      → Distinct m
      → decode_keys floats r fields m s ≡ (ok tt, out)
      → lookup key m ≡ some v
      → (i : ℕ) × (lookup key fields ≡ some i) × Wrote (λ k. assign_value floats r k v) i s out
  unfolding decode_keys lookup
  decode_keys-assigned fields [] s out key v apart d h found = cc
  decode_keys-assigned fields ((key, v) ∷ m) s out k w apart (new, d) h found =
      let (i, t, placed, assigned, rest) =
        assign_key-ok (λ k. assign_value floats r k v) s out (decode_keys floats r fields m)
          (lookup key fields) h in
      elim (Bool-cases (text_eq key k)) [
        | inl same ↦
            let (slot, x, there, taken, now) =
              assign_at-Wrote (λ k. assign_value floats r k v) i s t assigned in
            let v_is_w : v ≡ w = some_injective (rw same at found) in
            let key_is_k : key ≡ k = (text_eq_iff key k).0 same in
            let kept : field_at i out ≡ field_at i t =
              decode_keys-others fields m i t out (new_key fields m key i apart new placed) rest in
            (
              i,
              sym (ap (λ (a : Text). lookup a fields) key_is_k) ∙ placed,
              (
                slot,
                x,
                there,
                sym (ap (λ (a : Setting V). assign_value floats r slot.kind a) v_is_w) ∙ taken,
                kept ∙ now,
              ),
            )
        | inr other ↦
            let (j, placed_k, (slot, x, there, taken, now)) =
              decode_keys-assigned fields m t out k w apart d rest (rw other at found) in
            let moved : ¬ (i ≡ j) = λ e. ground (
              arith,
              text_eq_iff key k,
              other,
              apart key k i placed (placed_k ∙ ap (λ a. some a) (sym e)),
            ) in
            let kept : field_at j t ≡ field_at j s =
              assign_at-others (λ k. assign_value floats r k v) i j s t moved assigned in
            (j, placed_k, (slot, x, sym kept ∙ there, taken, now))
      ]

  decoded :
      (m : Dict (Setting V)) (s out : Struct)
      → decode_map floats r m (some s) ≡ (ok tt, some out)
      → decode_keys floats r (places 0 s []) m s ≡ (ok tt, out)
  unfolding decode_map
  decoded m s out h =
      both_same (decode_keys floats r (places 0 s []) m s) out
        (ap (λ (d : Result (Unit {0}) × Option Struct). d.0) h)
        (some_injective (ap (λ (d : Result (Unit {0}) × Option Struct). d.1) h))

  -- When a map, whose keys are distinct, is decoded into a struct without an error, each of its keys is
  -- the key of a field that is not skipped, and that field holds what `assignValue` makes of the
  -- setting for the field's kind; the field's name, tag and kind stay.
  pub decode_map-assigned :
      (m : Dict (Setting V)) (s out : Struct) (key : Text) (v : Setting V)
      → Distinct m
      → decode_map floats r m (some s) ≡ (ok tt, some out)
      → lookup key m ≡ some v
      → (i : ℕ) × (slot : Slot) × (x : Value) × (field_at i s ≡ some slot)
        × (field_key slot.decl ≡ some key)
        × (assign_value floats r slot.kind v ≡ some x)
        × (field_at i out ≡ some (record slot { value = x }))
  decode_map-assigned m s out key v d h found =
      let (i, placed, (slot, x, there, taken, now)) =
        decode_keys-assigned (places 0 s []) m s out key v (placed-Apart s) d (decoded m s out h)
          found in
      let (other, here, keyed) = placed-Keyed key i s placed in
      let same : other ≡ slot = some_injective (sym here ∙ there) in
      (i, slot, x, there, sym (ap (λ (a : Slot). field_key a.decl) same) ∙ keyed, taken, now)

  -- When a map is decoded into a struct without an error, a field that is skipped, or whose key is not
  -- in the map, is left as it was.
  pub decode_map-others :
      (m : Dict (Setting V)) (s out : Struct) (i : ℕ) (slot : Slot)
      → decode_map floats r m (some s) ≡ (ok tt, some out)
      → field_at i s ≡ some slot
      → named (field_key slot.decl) m ≡ false
      → field_at i out ≡ some slot
  decode_map-others m s out i slot h there unnamed =
      decode_keys-others (places 0 s []) m i s out
        (λ key given placed.
          let (other, here, keyed) = placed-Keyed key i s placed in
          let same : other ≡ slot = some_injective (sym here ∙ there) in
          let key_of : field_key slot.decl ≡ some key =
            sym (ap (λ (a : Slot). field_key a.decl) same) ∙ keyed in
          let both : true ≡ false =
            sym given ∙ (sym (ap (λ (o : Option Text). named o m) key_of) ∙ unnamed) in
          cc)
        (decoded m s out h)
      ∙ there
