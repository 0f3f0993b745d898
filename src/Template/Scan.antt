-- ===== src/Template/Scan.antt =====
-- The loop of `scanTokens`: enough fuel gives one result, and the equations of its branches.
use go_flexconf.Base.{
  ℕ, zero, suc, ◌+◌, ◌≤◌, List, [], ◌∷◌, ◌++◌, some, ◌≡◌, refl, arith, length, length-append,
  length-drop, drop, inl, inr, Option-cases, false, true, append_assoc, ap, ◌||◌, sym, ◌∙◌,
}
use go_flexconf.Text.{Text, cut, contains_char, has_prefix}
use go_flexconf.Text.Laws.{cut-CutAt, cut-append}
use go_flexconf.Errors.{Result, ◌>>=◌, ok}
use go_flexconf.Template.{
  Segment, token_rest, scan, open_mark, valid_scheme, escape_mark, is_lower, scheme_tail, is_digit,
  flush, token_segment,
}

pub length-cut :
    (sep : ℕ) (s before after : Text)
    → cut sep s ≡ some (before, after)
    → length after + 1 ≤ length s
length-cut sep s before after e =
    let at = cut-CutAt sep s e in rw (at.splits, length-append) (omega arith)

-- The two continuations agree on all that is shorter than the text they are given.
token_rest_agree :
    (m n : Text → Result (List Segment)) (lit s : Text)
    → ((after : Text) → length after + 1 ≤ length s → m after ≡ n after)
    → token_rest m lit (cut b')' s) ≡ token_rest n lit (cut b')' s)
token_rest_agree m n lit s agree = elim (Option-cases (cut b')' s)) [
  | inl e ↦ rw e
  | inr ((body, after), e) ↦ rw e (elim (Option-cases (cut b':' body)) [
    | inl e' ↦ rw e'
    | inr ((scheme, path), e') ↦ rw (e', agree after (length-cut b')' s body after e))
  ])
]

pub scan_fuel : (f g : ℕ) (s lit : Text) → length s ≤ f → length s ≤ g → scan f s lit ≡ scan g s lit
unfolding scan
scan_fuel zero zero s lit p q = refl
scan_fuel zero (suc g) [] lit p q = refl
scan_fuel zero (suc g) (c ∷ s) lit p q = absurd (omega arith)
scan_fuel (suc f) zero [] lit p q = refl
scan_fuel (suc f) zero (c ∷ s) lit p q = absurd (omega arith)
scan_fuel (suc f) (suc g) [] lit p q = refl
scan_fuel (suc f) (suc g) (c ∷ s) lit p q = rw (
  scan_fuel f g (drop 2 s) (lit ++ open_mark) (omega (arith, length-drop 2 s))
      (omega (arith, length-drop 2 s)),
  scan_fuel f g s (lit ++ c ∷ []) (omega arith) (omega arith),
  token_rest_agree (λ after. scan f after []) (λ after. scan g after []) lit (drop 1 s)
      (λ after h.
        scan_fuel f g after [] (omega (arith, length-drop 1 s)) (omega (arith, length-drop 1 s))),
)

-- The scanner with the fuel that `scanTokens` stands for.
abbrev pub scan_from : Text → Text → Result (List Segment)
scan_from s lit = scan (length s) s lit

pub scan_escape :
    (s lit : Text) → scan_from (b'$' ∷ b'$' ∷ b'(' ∷ s) lit ≡ scan_from s (lit ++ open_mark)
unfolding scan
scan_escape s lit =
    scan_fuel (suc (suc (length s))) (length s) s (lit ++ open_mark) (omega arith) (omega arith)

pub scan_plain :
    (c : ℕ) (s lit : Text)
    → has_prefix (c ∷ s) escape_mark ≡ false
    → has_prefix (c ∷ s) open_mark ≡ false
    → scan_from (c ∷ s) lit ≡ scan_from s (lit ++ c ∷ [])
scan_plain c s lit p q = unfold scan in rw (p, q)

pub contains_char-append :
    (sep : ℕ) (s t : Text)
    → contains_char sep s ≡ false
    → contains_char sep t ≡ false
    → contains_char sep (s ++ t) ≡ false
unfolding contains_char
contains_char-append sep [] t p q = q
contains_char-append sep (c ∷ s) t p q = ground (arith, contains_char-append sep s t)

scheme_tail_lacks :
    (sep : ℕ) (s : Text)
    → (is_lower sep || is_digit sep) ≡ false
    → scheme_tail s ≡ true
    → contains_char sep s ≡ false
unfolding contains_char scheme_tail
scheme_tail_lacks sep [] p h = refl
scheme_tail_lacks sep (c ∷ s) p h = ground (arith, scheme_tail_lacks sep s p)

-- A scheme name holds neither of the characters that end it.
pub valid_scheme_lacks :
    (sep : ℕ) (s : Text)
    → (is_lower sep || is_digit sep) ≡ false
    → valid_scheme s ≡ true
    → contains_char sep s ≡ false
unfolding contains_char valid_scheme
valid_scheme_lacks sep [] p h = refl
valid_scheme_lacks sep (c ∷ s) p h = ground (arith, scheme_tail_lacks sep s p)

-- The text of a token, with what stands behind it.
abbrev pub token_text : Text → Text → Text → Text
token_text scheme path rest = b'$' ∷ b'(' ∷ (scheme ++ b':' ∷ (path ++ b')' ∷ rest))

cut_token :
    (scheme path rest : Text)
    → valid_scheme scheme ≡ true
    → contains_char b')' path ≡ false
    → cut b')' (scheme ++ b':' ∷ (path ++ b')' ∷ rest)) ≡ some (scheme ++ b':' ∷ path, rest)
cut_token scheme path rest v h =
    ap (cut b')') (sym (append_assoc scheme (b':' ∷ path) (b')' ∷ rest)))
    ∙ cut-append b')' (scheme ++ b':' ∷ path) rest (
        contains_char-append b')' scheme (b':' ∷ path) (valid_scheme_lacks b')' scheme refl v)
          (unfold contains_char in h))

length-behind :
    (scheme path rest : Text) → length rest ≤ suc (length (scheme ++ b':' ∷ (path ++ b')' ∷ rest)))
length-behind scheme path rest =
    omega
      (arith, length-append scheme (b':' ∷ (path ++ b')' ∷ rest)), length-append path (b')' ∷ rest))

pub scan_token :
    (scheme path rest lit : Text)
    → valid_scheme scheme ≡ true
    → contains_char b')' path ≡ false
    → scan_from (token_text scheme path rest) lit
      ≡ (scan_from rest [] >>= λ segs. ok (flush lit ++ token_segment scheme path ∷ segs))
scan_token scheme path rest lit v h =
    unfold scan has_prefix in
    rw (
      cut_token scheme path rest v h,
      cut-append b':' scheme path (valid_scheme_lacks b':' scheme refl v),
      v,
      scan_fuel (suc (length (scheme ++ b':' ∷ (path ++ b')' ∷ rest)))) (length rest) rest []
          (length-behind scheme path rest) (omega arith),
    )
