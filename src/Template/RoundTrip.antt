-- ===== src/Template/RoundTrip.antt =====
-- Tokens as text: what `scanTokens` reads back, and what it returns.
use go_flexconf.Template.{
  Segment, scan, scan_tokens, is_token, literal_segment, open_mark, valid_scheme, token_segment,
  escape_mark, flush,
}
use go_flexconf.Base.{
  List, Bool, [], ◌∷◌, ◌≡◌, false, if◌then◌else◌, true, ℕ, ◌==◌, ◌⊎◌, ◌++◌, append-nil, Bool-cases,
  inl, inr, ap, arith, ◌∙◌, append_assoc, refl,
}
use go_flexconf.Text.{Text, has_prefix, contains_char}
use go_flexconf.Template.Scan.{scan_from, token_text, scan_escape, scan_plain, scan_token}
use go_flexconf.Errors.{ok, Result, ◌>>=◌}

-- Literal text as it is written in a config value: "$(" is escaped.
unfoldable pub escape : Text → Text
unfolding has_prefix
escape [] = []
escape (c ∷ s) =
    let rest = c ∷ escape s in if has_prefix (c ∷ s) open_mark then b'$' ∷ rest else rest

-- The segments as text.
unfoldable pub render : List Segment → Text
unfolding escape
render [] = []
render (s ∷ segs) =
    if is_token s then token_text s.scheme s.path (render segs) else escape s.literal ++ render segs

abbrev pub ends_in_dollar : Text → Bool
ends_in_dollar [] = false
ends_in_dollar (c ∷ []) = c == b'$'
ends_in_dollar (c ∷ d ∷ s) = ends_in_dollar (d ∷ s)

-- The segment lists that `scanTokens` returns: no empty literal, no two literals in a row, no
-- literal that ends in "$" before a token.
pub data IsScanned : List Segment → Type 0 where
  done : IsScanned []
  last_literal : {c : ℕ} {lit : Text} → IsScanned (literal_segment (c ∷ lit) ∷ [])
  token :
      {scheme path : Text} {segs : List Segment}
      → valid_scheme scheme ≡ true
      → contains_char b')' path ≡ false
      → IsScanned segs
      → IsScanned (token_segment scheme path ∷ segs)
  literal_token :
      {c : ℕ} {lit scheme path : Text} {segs : List Segment}
      → ends_in_dollar (c ∷ lit) ≡ false
      → valid_scheme scheme ≡ true
      → contains_char b')' path ≡ false
      → IsScanned segs
      → IsScanned (literal_segment (c ∷ lit) ∷ token_segment scheme path ∷ segs)

abbrev pub starts_in_paren : Text → Bool
starts_in_paren [] = false
starts_in_paren (c ∷ s) = c == b'('

open_mark_iff :
    (c d : ℕ) (s : Text) → has_prefix (c ∷ d ∷ s) open_mark ≡ true → (c ≡ b'$') × (d ≡ b'(')
unfolding has_prefix
open_mark_iff c d s h = ground arith

escape_marked : (s : Text) → escape (b'$' ∷ b'(' ∷ s) ≡ b'$' ∷ b'$' ∷ b'(' ∷ escape s
unfolding escape
escape_marked s = refl

escape_plain :
    (c : ℕ) (s : Text) → has_prefix (c ∷ s) open_mark ≡ false → escape (c ∷ s) ≡ c ∷ escape s
unfolding escape
escape_plain c s h = rw h

pub escape_single : (c : ℕ) → escape (c ∷ []) ≡ c ∷ []
unfolding escape
escape_single c = ground arith

-- An escaped character behind a plain one makes no mark.
escape_no_open :
    (c d : ℕ) (lit rest : Text)
    → has_prefix (c ∷ d ∷ lit) open_mark ≡ false
    → has_prefix (c ∷ (escape (d ∷ lit) ++ rest)) open_mark ≡ false
unfolding escape
escape_no_open c d [] rest h = ground arith
escape_no_open c d (f ∷ lit) rest h = ground arith

escape_no_escape :
    (c d : ℕ) (lit rest : Text)
    → has_prefix (c ∷ d ∷ lit) open_mark ≡ false
    → (ends_in_dollar (c ∷ d ∷ lit) ≡ false) ⊎ (rest ≡ [])
    → starts_in_paren rest ≡ false
    → has_prefix (c ∷ (escape (d ∷ lit) ++ rest)) escape_mark ≡ false
unfolding escape
escape_no_escape c d [] [] h e p = ground arith
escape_no_escape c d [] (r ∷ rest) h e p = ground arith
escape_no_escape c d (f ∷ []) rest h e p = ground arith
escape_no_escape c d (f ∷ g ∷ lit) rest h e p = ground arith

last_no_escape :
    (c : ℕ) (rest : Text)
    → (ends_in_dollar (c ∷ []) ≡ false) ⊎ (rest ≡ [])
    → (has_prefix (c ∷ rest) escape_mark ≡ false)
unfolding has_prefix
last_no_escape c [] e = ground arith
last_no_escape c (r ∷ []) e = ground arith
last_no_escape c (r ∷ s ∷ rest) e = ground arith

last_no_open :
    (c : ℕ) (rest : Text)
    → (ends_in_dollar (c ∷ []) ≡ false) ⊎ (rest ≡ [])
    → has_prefix (c ∷ rest) open_mark ≡ false
unfolding has_prefix
last_no_open c [] e = ground arith
last_no_open c (r ∷ rest) e = ground arith

ends_behind :
    (c d : ℕ) (lit rest : Text)
    → (ends_in_dollar (c ∷ d ∷ lit) ≡ false) ⊎ (rest ≡ [])
    → (ends_in_dollar lit ≡ false) ⊎ (rest ≡ [])
ends_behind c d [] rest e = inl refl
ends_behind c d (f ∷ lit) rest e = e

scan_marked :
    (c d : ℕ) (lit rest acc : Text)
    → (c ≡ b'$') × (d ≡ b'(')
    → scan_from (escape lit ++ rest) (acc ++ open_mark) ≡ scan_from rest ((acc ++ open_mark) ++ lit)
    → scan_from (escape (c ∷ d ∷ lit) ++ rest) acc ≡ scan_from rest (acc ++ c ∷ d ∷ lit)
scan_marked c d lit rest acc (p, q) h =
    rw (p, q)
      (ap (λ (t : Text). scan_from (t ++ rest) acc) (escape_marked lit)
        ∙ scan_escape (escape lit ++ rest) acc
        ∙ h
        ∙ ap (scan_from rest) (append_assoc acc open_mark lit))

scan_literal :
    (lit rest acc : Text)
    → (ends_in_dollar lit ≡ false) ⊎ (rest ≡ [])
    → starts_in_paren rest ≡ false
    → scan_from (escape lit ++ rest) acc ≡ scan_from rest (acc ++ lit)
scan_literal [] rest acc e p = unfold escape in rw append-nil
scan_literal (c ∷ []) rest acc e p =
    ap (λ (t : Text). scan_from (t ++ rest) acc) (escape_single c)
    ∙ scan_plain c rest acc (last_no_escape c rest e) (last_no_open c rest e)
scan_literal (c ∷ d ∷ lit) rest acc e p = elim (Bool-cases (has_prefix (c ∷ d ∷ lit) open_mark)) [
  | inl marked ↦
      scan_marked c d lit rest acc (open_mark_iff c d lit marked)
        (scan_literal lit rest (acc ++ open_mark) (ends_behind c d lit rest e) p)
  | inr plain ↦
      ap (λ (t : Text). scan_from (t ++ rest) acc) (escape_plain c (d ∷ lit) plain)
      ∙ scan_plain c (escape (d ∷ lit) ++ rest) acc (escape_no_escape c d lit rest plain e p)
          (escape_no_open c d lit rest plain)
      ∙ scan_literal (d ∷ lit) rest (acc ++ c ∷ []) e p
      ∙ ap (scan_from rest) (append_assoc acc (c ∷ []) (d ∷ lit))
]

pub render_token :
    (scheme path : Text) (segs : List Segment)
    → valid_scheme scheme ≡ true
    → render (token_segment scheme path ∷ segs) ≡ token_text scheme path (render segs)
unfolding render valid_scheme
render_token [] path segs v = cc
render_token (c ∷ scheme) path segs v = refl

pub render_literal :
    (lit : Text) (segs : List Segment)
    → render (literal_segment lit ∷ segs) ≡ escape lit ++ render segs
unfolding render
render_literal lit segs = refl

-- A token is scanned behind pending literal text, once the rest is.
scan-render_token :
    (lit scheme path : Text) (segs : List Segment)
    → valid_scheme scheme ≡ true
    → contains_char b')' path ≡ false
    → scan_from (render segs) [] ≡ ok segs
    → scan_from (render (token_segment scheme path ∷ segs)) lit
      ≡ ok (flush lit ++ token_segment scheme path ∷ segs)
scan-render_token lit scheme path segs v h ih =
    ap (λ (t : Text). scan_from t lit) (render_token scheme path segs v)
    ∙ scan_token scheme path (render segs) lit v h
    ∙ ap
        (λ (r : Result (List Segment)).
          r >>= λ rest. ok (flush lit ++ token_segment scheme path ∷ rest))
        ih

token_starts :
    (scheme path : Text) (segs : List Segment)
    → valid_scheme scheme ≡ true
    → starts_in_paren (render (token_segment scheme path ∷ segs)) ≡ false
token_starts scheme path segs v = rw (render_token scheme path segs v)

scan_from-render : {segs : List Segment} → IsScanned segs → scan_from (render segs) [] ≡ ok segs
scan_from-render done = unfold render scan in refl
scan_from-render (last_literal {c} {lit}) =
    ap (λ (t : Text). scan_from t []) (render_literal (c ∷ lit) [])
    ∙ scan_literal (c ∷ lit) (render []) [] (inr (unfold render in refl)) (unfold render in refl)
    ∙ (unfold render scan in refl)
scan_from-render (token {scheme} {path} {segs} v h rest) =
    scan-render_token [] scheme path segs v h (scan_from-render rest)
scan_from-render (literal_token {c} {lit} {scheme} {path} {segs} e v h rest) =
    ap (λ (t : Text). scan_from t []) (render_literal (c ∷ lit) (token_segment scheme path ∷ segs))
    ∙ scan_literal (c ∷ lit) _ [] (inl e) (token_starts scheme path segs v)
    ∙ scan-render_token (c ∷ lit) scheme path segs v h (scan_from-render rest)

-- Every segment list of the scanner's form, written as text with "$(" escaped in its literals, is
-- read back by `scanTokens` as it was.
pub scan_tokens-render :
    {segs : List Segment} → IsScanned segs → scan_tokens (render segs) ≡ ok segs
unfolding scan_tokens
scan_tokens-render h = scan_from-render h
