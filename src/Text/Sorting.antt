-- ===== src/Text/Sorting.antt =====
-- sort.Strings: an ordering of strings by their characters, and the sorted list.
use go_flexconf.Text.{Text, text_eq}
use go_flexconf.Base.{
  Bool, Bool-cases, List, [], ap, arith, false, if◌then◌else◌, inl, inr, ltb, refl, true, ◌==◌,
  ◌||◌, ◌∙◌, ◌∷◌, ◌≡◌,
}

unfoldable pub text_leb : Text → Text → Bool
text_leb [] t = true
text_leb (c ∷ s) [] = false
text_leb (c ∷ s) (d ∷ t) = if ltb c d then true else if c == d then text_leb s t else false

unfoldable pub insert_sorted : Text → List Text → List Text
unfolding text_leb
insert_sorted s [] = s ∷ []
insert_sorted s (t ∷ l) = if text_leb s t then s ∷ t ∷ l else t ∷ insert_sorted s l

unfoldable pub sort_strings : List Text → List Text
unfolding insert_sorted
sort_strings [] = []
sort_strings (s ∷ l) = insert_sorted s (sort_strings l)

-- Is the string one of the list?
unfoldable pub member : Text → List Text → Bool
unfolding text_eq
member s [] = false
member s (t ∷ l) = text_eq t s || member s l

-- Each string is at most the next one.
abbrev pub Ascending : List Text → Type 0
Ascending [] = Unit
Ascending (s ∷ []) = Unit
Ascending (s ∷ t ∷ l) = (text_leb s t ≡ true) × Ascending (t ∷ l)

text_leb_total : (s t : Text) → text_leb s t ≡ false → text_leb t s ≡ true
unfolding text_leb
text_leb_total [] t h = cc
text_leb_total (c ∷ s) [] h = refl
text_leb_total (c ∷ s) (d ∷ t) h = ground (arith, text_leb_total s t, h)

insert_sorted-Ascending : (s : Text) (l : List Text) → Ascending l → Ascending (insert_sorted s l)
unfolding insert_sorted
insert_sorted-Ascending s [] h = tt
insert_sorted-Ascending s (t ∷ []) h = elim (Bool-cases (text_leb s t)) [
  | inl le ↦ rw le (le, tt)
  | inr gt ↦ rw gt (text_leb_total s t gt, tt)
]
insert_sorted-Ascending s (t ∷ u ∷ l) h = elim (Bool-cases (text_leb s t)) [
  | inl le ↦ rw le (le, h)
  | inr gt ↦
      let ih = insert_sorted-Ascending s (u ∷ l) h.1 in
      elim (Bool-cases (text_leb s u)) [
        | inl below ↦ rw (gt, below) (text_leb_total s t gt, (below, h.1))
        | inr above ↦ rw (gt, above) (h.0, (rw above at ih))
      ]
]

pub sort_strings-Ascending : (l : List Text) → Ascending (sort_strings l)
unfolding sort_strings
sort_strings-Ascending [] = tt
sort_strings-Ascending (s ∷ l) =
    insert_sorted-Ascending s (sort_strings l) (sort_strings-Ascending l)

member-insert_sorted :
    (x s : Text) (l : List Text) → member x (insert_sorted s l) ≡ (text_eq s x || member x l)
unfolding member insert_sorted
member-insert_sorted x s [] = refl
member-insert_sorted x s (t ∷ l) = ground (arith, member-insert_sorted x s l)

pub member-sort_strings : (x : Text) (l : List Text) → member x (sort_strings l) ≡ member x l
unfolding sort_strings member
member-sort_strings x [] = refl
member-sort_strings x (s ∷ l) =
    member-insert_sorted x s (sort_strings l) ∙ ap (λ b. text_eq s x || b) (member-sort_strings x l)
