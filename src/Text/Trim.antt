-- ===== src/Text/Trim.antt =====
-- strings.TrimSpace is idempotent.
use go_flexconf.Text.{Text, trim_left, trim_right, trim_space, keep_unless_last, is_space}
use go_flexconf.Base.{ℕ, ◌≡◌, arith, ◌∷◌, Bool-cases, [], false, inl, refl, inr}

trim_right-keep :
    (c : ℕ) (s : Text) → trim_right s ≡ s → trim_right (keep_unless_last c s) ≡ keep_unless_last c s
unfolding trim_right
trim_right-keep c [] h = ground arith
trim_right-keep c (d ∷ s) h = ground arith

trim_right_idem : (s : Text) → trim_right (trim_right s) ≡ trim_right s
unfolding trim_right
trim_right_idem [] = refl
trim_right_idem (c ∷ s) = trim_right-keep c (trim_right s) (trim_right_idem s)

keep_left :
    (c : ℕ) (s : Text)
    → is_space c ≡ false
    → trim_left (keep_unless_last c s) ≡ keep_unless_last c s
unfolding trim_left
keep_left c [] h = simp h refl
keep_left c (d ∷ s) h = rw h

trim_left-right : (s : Text) → trim_left (trim_right (trim_left s)) ≡ trim_right (trim_left s)
unfolding trim_left
trim_left-right [] = unfold trim_right in refl
trim_left-right (c ∷ s) = elim (Bool-cases (is_space c)) [
  | inl space ↦ rw space (trim_left-right s)
  | inr other ↦ rw other (unfold trim_right in keep_left c (trim_right s) other)
]

pub trim_space_idem : (s : Text) → trim_space (trim_space s) ≡ trim_space s
unfolding trim_space
trim_space_idem s = rw trim_left-right (trim_right_idem (trim_left s))
