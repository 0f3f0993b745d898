-- ===== src/Text/Laws.antt =====
-- The laws of the text functions.
use go_flexconf.Base.{
  ℕ, true, false, [], ◌∷◌, ◌++◌, none, some, ◌≡◌, ◌↔◌, refl, subst, arith, Bool-cases, Option-cases,
  inl, inr, ◌==◌,
}
use go_flexconf.Text.{Text, text_eq, contains_char, cut}

pub text_eq_refl : (s : Text) → text_eq s s ≡ true
unfolding text_eq
text_eq_refl [] = refl
text_eq_refl (x ∷ xs) = ground (arith, text_eq_refl xs)

pub eq_of_text_eq : (s t : Text) → text_eq s t ≡ true → s ≡ t
unfolding text_eq
eq_of_text_eq [] [] h = refl
eq_of_text_eq (x ∷ xs) [] h = cc
eq_of_text_eq [] (y ∷ ys) h = cc
eq_of_text_eq (x ∷ xs) (y ∷ ys) h = ground (arith, eq_of_text_eq xs ys)

pub text_eq_iff : (s t : Text) → (text_eq s t ≡ true) ↔ (s ≡ t)
text_eq_iff s t =
    (eq_of_text_eq s t, λ e. subst (λ (u : Text). text_eq s u ≡ true) e (text_eq_refl s))

-- A cut that succeeds splits at the first separator.
pub record CutAt (sep : ℕ) (s before after : Text) : Type 0 where
  pub splits : s ≡ before ++ sep ∷ after
  pub first : contains_char sep before ≡ false

pub cut-CutAt :
    (sep : ℕ) (s : Text) {before after : Text}
    → cut sep s ≡ some (before, after)
    → CutAt sep s before after
unfolding cut contains_char
cut-CutAt sep [] h = cc
cut-CutAt sep (c ∷ s) {before} {after} h = elim (Bool-cases (c == sep)) [
  | inl same ↦ ground (arith, same)
  | inr other ↦ elim (Option-cases (cut sep s)) [
    | inl e ↦ ground (arith, e)
    | inr ((b, a), e) ↦ ground (arith, other, e, cut-CutAt sep s {before = b} {after = a} e)
  ]
]

pub cut-append :
    (sep : ℕ) (before after : Text)
    → contains_char sep before ≡ false
    → cut sep (before ++ sep ∷ after) ≡ some (before, after)
unfolding cut contains_char
cut-append sep [] after h = ground arith
cut-append sep (c ∷ s) after h = ground (arith, cut-append sep s after)

pub cut-none : (sep : ℕ) (s : Text) → contains_char sep s ≡ false → cut sep s ≡ none
unfolding cut contains_char
cut-none sep [] h = refl
cut-none sep (c ∷ s) h = ground (arith, cut-none sep s)
