-- ===== src/Template.antt =====
-- flexconf/template.go: the token scanner. `scan_tokens` is `scanTokens`; the string is consumed
-- from the front, so that the index `i` of the source is the part already dropped, and `literal`
-- is its string builder. Each round drops a character at least, and the fuel is the length.
pub mod Scan
pub mod RoundTrip
pub mod Sound
use go_flexconf.Base.{
  ℕ, zero, suc, Bool, true, false, not, ◌&&◌, ◌||◌, List, [], ◌∷◌, ◌++◌, Option, none, some, leb,
  length, drop, is_empty, if◌then◌else◌,
}
use go_flexconf.Text.{Text, has_prefix, cut}
use go_flexconf.Errors.{Result, ok, err, ◌>>=◌, wraps, bad_token}

pub record Segment : Type 0 where
  pub literal : Text
  pub scheme : Text
  pub path : Text

abbrev pub literal_segment : Text → Segment
literal_segment lit = record { literal = lit; scheme = []; path = [] }

abbrev pub token_segment : Text → Text → Segment
token_segment scheme path = record { literal = []; scheme = scheme; path = path }

abbrev pub is_token : Segment → Bool
is_token s = not (is_empty s.scheme)

abbrev pub open_mark : Text
open_mark = b'$' ∷ b'(' ∷ []

abbrev pub escape_mark : Text
escape_mark = b'$' ∷ b'$' ∷ b'(' ∷ []

abbrev pub is_lower : ℕ → Bool
is_lower c = leb b'a' c && leb c b'z'

abbrev pub is_digit : ℕ → Bool
is_digit c = leb b'0' c && leb c b'9'

unfoldable pub scheme_tail : Text → Bool
scheme_tail [] = true
scheme_tail (c ∷ s) = (is_lower c || is_digit c) && scheme_tail s

unfoldable pub valid_scheme : Text → Bool
unfolding scheme_tail
valid_scheme [] = false
valid_scheme (c ∷ s) = is_lower c && scheme_tail s

-- What the builder holds becomes a segment, unless it is empty.
abbrev pub flush : Text → List Segment
flush [] = []
flush (c ∷ lit) = literal_segment (c ∷ lit) ∷ []

abbrev Next : Type 0
Next = Text → Result (List Segment)

-- The body of a token, cut at its colon; `next` scans what stands behind the token.
abbrev token_body : Next → Text → Text → Option (Text × Text) → Result (List Segment)
token_body next lit after none = err (wraps bad_token)
token_body next lit after (some (scheme, path)) =
    if valid_scheme scheme
    then (next after >>= λ segs. ok (flush lit ++ token_segment scheme path ∷ segs))
    else err (wraps bad_token)

-- What stands behind "$(", cut at the first ")".
abbrev token_rest : Next → Text → Option (Text × Text) → Result (List Segment)
token_rest next lit none = err (wraps bad_token)
token_rest next lit (some (body, after)) = token_body next lit after (cut b':' body)

unfoldable pub scan : ℕ → Text → Text → Result (List Segment)
unfolding has_prefix valid_scheme cut
scan zero s lit = ok (flush lit)
scan (suc fuel) [] lit = ok (flush lit)
scan (suc fuel) (c ∷ s) lit =
    let escaped = scan fuel (drop 2 s) (lit ++ open_mark) in
    let token = token_rest (λ after. scan fuel after []) lit (cut b')' (drop 1 s)) in
    let plain = scan fuel s (lit ++ c ∷ []) in
    if has_prefix (c ∷ s) escape_mark
    then escaped
    else if has_prefix (c ∷ s) open_mark
    then token
    else plain

unfoldable pub scan_tokens : Text → Result (List Segment)
unfolding scan
scan_tokens s = scan (length s) s []

unfoldable pub has_tokens : List Segment → Bool
has_tokens [] = false
has_tokens (s ∷ segs) = is_token s || has_tokens segs
