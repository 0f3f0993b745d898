-- ===== src/Template/Sound.antt =====
-- What `scanTokens` returns is of its form, and stands for the text that was scanned.
use go_flexconf.Template.{
  Segment, scan, scan_tokens, escape_mark, flush, open_mark, valid_scheme, token_segment,
  token_rest,
}
use go_flexconf.Text.{Text, has_prefix, contains_char, cut}
use go_flexconf.Template.RoundTrip.{
  escape, ends_in_dollar, render, IsScanned, done, render_literal, last_literal, render_token,
  token, literal_token, starts_in_paren, escape_single,
}
use go_flexconf.Base.{
  ℕ, List, [], ◌∷◌, ◌&&◌, ◌++◌, ◌≡◌, false, true, ◌==◌, ◌∙◌, arith, drop, refl, ap, length,
  Bool-cases, append_assoc, some, ◌≤◌, inl, sym, inr, subst, suc, length-drop, Option-cases, zero,
}
use go_flexconf.Template.Scan.{token_text, length-cut}
use go_flexconf.Text.Laws.{cut-CutAt}
use go_flexconf.Errors.{ok, Result, ok_injective, >>=-eq-ok, err_ne_ok}

record ScansTo (lit s : Text) (segs : List Segment) : Type 0 where
  renders : render segs ≡ escape lit ++ s
  scanned : IsScanned segs

-- A last "$" of the pending literal makes no mark with the text behind it.
abbrev Boundary : Text → Text → Type 0
Boundary lit s =
    ends_in_dollar lit ≡ true → (starts_in_paren s ≡ false) × (has_prefix s open_mark ≡ false)

escape-append :
    (s t : Text)
    → (ends_in_dollar s && starts_in_paren t) ≡ false
    → escape (s ++ t) ≡ escape s ++ escape t
unfolding escape
escape-append [] t h = refl
escape-append (c ∷ []) [] h = ground arith
escape-append (c ∷ []) (d ∷ t) h = ground arith
escape-append (c ∷ d ∷ s) t h = ground (arith, escape-append (d ∷ s) t h)

escape_shape :
    (c : ℕ) (s : Text)
    → has_prefix (c ∷ s) escape_mark ≡ true
    → c ∷ s ≡ b'$' ∷ b'$' ∷ b'(' ∷ drop 2 s
unfolding has_prefix
escape_shape c [] h = ground arith
escape_shape c (d ∷ []) h = ground arith
escape_shape c (d ∷ e ∷ s) h = ground arith

open_shape :
    (c : ℕ) (s : Text) → has_prefix (c ∷ s) open_mark ≡ true → c ∷ s ≡ b'$' ∷ b'(' ∷ drop 1 s
unfolding has_prefix
open_shape c [] h = ground arith
open_shape c (d ∷ s) h = ground arith

ends_in_dollar-append : (s : Text) (c : ℕ) → ends_in_dollar (s ++ c ∷ []) ≡ (c == b'$')
ends_in_dollar-append [] c = refl
ends_in_dollar-append (d ∷ []) c = refl
ends_in_dollar-append (d ∷ e ∷ s) c = ends_in_dollar-append (e ∷ s) c

ends_in_dollar-append_mark : (s : Text) → ends_in_dollar (s ++ open_mark) ≡ false
ends_in_dollar-append_mark [] = refl
ends_in_dollar-append_mark (d ∷ []) = refl
ends_in_dollar-append_mark (d ∷ e ∷ s) = ends_in_dollar-append_mark (e ∷ s)

Boundary-plain :
    (c : ℕ) (s lit : Text)
    → has_prefix (c ∷ s) escape_mark ≡ false
    → has_prefix (c ∷ s) open_mark ≡ false
    → Boundary (lit ++ c ∷ []) s
unfolding has_prefix
Boundary-plain c [] lit p q h = (refl, refl)
Boundary-plain c (d ∷ []) lit p q h = ground (arith, ends_in_dollar-append lit c)
Boundary-plain c (d ∷ e ∷ s) lit p q h = ground (arith, ends_in_dollar-append lit c)

flush-ScansTo : (lit : Text) → ScansTo lit [] (flush lit)
flush-ScansTo [] = record { renders = unfold render escape in refl; scanned = done }
flush-ScansTo (c ∷ lit) = record {
  renders = render_literal (c ∷ lit) [] ∙ (unfold render in refl);
  scanned = last_literal;
}

-- One more round of the loop, on an escape.
escape-ScansTo :
    (c : ℕ) (s lit : Text) {segs : List Segment}
    → has_prefix (c ∷ s) escape_mark ≡ true
    → ScansTo (lit ++ open_mark) (drop 2 s) segs
    → ScansTo lit (c ∷ s) segs
escape-ScansTo c s lit h r = record {
  renders =
      r.renders
      ∙ ap (λ (t : Text). t ++ drop 2 s) (escape-append lit open_mark (ground arith))
      ∙ append_assoc (escape lit) (escape open_mark) (drop 2 s)
      ∙ ap (λ (t : Text). escape lit ++ t) (unfold escape in sym (escape_shape c s h));
  scanned = r.scanned;
}

Boundary-append :
    (lit : Text) (c : ℕ) (s : Text)
    → Boundary lit (c ∷ s)
    → (ends_in_dollar lit && starts_in_paren (c ∷ [])) ≡ false
Boundary-append lit c s b = elim (Bool-cases (ends_in_dollar lit)) [
  | inl last ↦ rw (last, (b last).0)
  | inr other ↦ rw other
]

plain-ScansTo :
    (c : ℕ) (s lit : Text) {segs : List Segment}
    → Boundary lit (c ∷ s)
    → ScansTo (lit ++ c ∷ []) s segs
    → ScansTo lit (c ∷ s) segs
plain-ScansTo c s lit b r = record {
  renders =
      r.renders
      ∙ ap (λ (t : Text). t ++ s) (escape-append lit (c ∷ []) (Boundary-append lit c s b))
      ∙ append_assoc (escape lit) (escape (c ∷ [])) s
      ∙ ap (λ (t : Text). escape lit ++ (t ++ s)) (escape_single c);
  scanned = r.scanned;
}

token-ScansTo :
    (lit scheme path after : Text) {segs : List Segment}
    → valid_scheme scheme ≡ true
    → contains_char b')' path ≡ false
    → ends_in_dollar lit ≡ false
    → ScansTo [] after segs
    → ScansTo lit (token_text scheme path after) (flush lit ++ token_segment scheme path ∷ segs)
token-ScansTo [] scheme path after v h e r = record {
  renders = render_token scheme path _ v ∙ (unfold escape in ap (token_text scheme path) r.renders);
  scanned = token v h r.scanned;
}
token-ScansTo (c ∷ lit) scheme path after {segs} v h e r = record {
  renders =
      render_literal (c ∷ lit) (token_segment scheme path ∷ segs)
      ∙ ap (λ (t : Text). escape (c ∷ lit) ++ t)
          (render_token scheme path segs v
            ∙ (unfold escape in ap (token_text scheme path) r.renders));
  scanned = literal_token e v h r.scanned;
}

contains_char-behind :
    (sep : ℕ) (s t : Text) → contains_char sep (s ++ t) ≡ false → contains_char sep t ≡ false
unfolding contains_char
contains_char-behind sep [] t h = h
contains_char-behind sep (c ∷ s) t h = ground (arith, contains_char-behind sep s t)

-- A token that the scanner has read, from the cuts that it made.
read_token-ScansTo :
    (lit s body scheme path after : Text) {segs : List Segment}
    → cut b')' s ≡ some (body, after)
    → cut b':' body ≡ some (scheme, path)
    → valid_scheme scheme ≡ true
    → ends_in_dollar lit ≡ false
    → ScansTo [] after segs
    → ScansTo lit (b'$' ∷ b'(' ∷ s) (flush lit ++ token_segment scheme path ∷ segs)
read_token-ScansTo lit s body scheme path after {segs} e e' v h r =
    let outer = cut-CutAt b')' s e in
    let inner = cut-CutAt b':' body e' in
    let lacks = contains_char-behind b')' scheme (b':' ∷ path) (rw inner.splits at outer.first) in
    subst
      (λ (t : Text). ScansTo lit (b'$' ∷ b'(' ∷ t) (flush lit ++ token_segment scheme path ∷ segs))
      (sym (
        outer.splits
        ∙ ap (λ (t : Text). t ++ b')' ∷ after) inner.splits
        ∙ append_assoc scheme (b':' ∷ path) (b')' ∷ after)))
      (token-ScansTo lit scheme path after v (unfold contains_char in lacks) h r)

not_dollar :
    (lit : Text) (c : ℕ) (s : Text)
    → Boundary lit (c ∷ s)
    → has_prefix (c ∷ s) open_mark ≡ true
    → ends_in_dollar lit ≡ false
not_dollar lit c s b opens = elim (Bool-cases (ends_in_dollar lit)) [
  | inl last ↦ cc ((b last).1)
  | inr other ↦ other
]

-- What a successful read of a token consists of.
record TokenRead (next : Text → Result (List Segment)) (lit s : Text) (segs : List Segment)
    : Type 0 where
  body : Text
  scheme : Text
  path : Text
  after : Text
  behind : List Segment
  cut_body : cut b')' s ≡ some (body, after)
  cut_scheme : cut b':' body ≡ some (scheme, path)
  is_valid : valid_scheme scheme ≡ true
  read_behind : next after ≡ ok behind
  is_segs : flush lit ++ token_segment scheme path ∷ behind ≡ segs

token_rest-TokenRead :
    (next : Text → Result (List Segment)) (lit s : Text) {segs : List Segment}
    → token_rest next lit (cut b')' s) ≡ ok segs
    → TokenRead next lit s segs
token_rest-TokenRead next lit s {segs} e = elim (Option-cases (cut b')' s)) [
  | inl none_found ↦ absurd (err_ne_ok (rw none_found at e))
  | inr ((body, after), found) ↦ elim (Option-cases (cut b':' body)) [
    | inl no_colon ↦ absurd (err_ne_ok (rw no_colon at (rw found at e)))
    | inr ((scheme, path), colon) ↦ elim (Bool-cases (valid_scheme scheme)) [
      | inl v ↦
          let read =
            >>=-eq-ok (next after) (λ rest. ok (flush lit ++ token_segment scheme path ∷ rest))
              (rw v at (rw colon at (rw found at e))) in
          record {
            body = body;
            scheme = scheme;
            path = path;
            after = after;
            behind = read.0;
            cut_body = found;
            cut_scheme = colon;
            is_valid = v;
            read_behind = read.1;
            is_segs = ok_injective read.2;
          }
      | inr w ↦ absurd (err_ne_ok (rw w at (rw colon at (rw found at e))))
    ]
  ]
]

scan-ScansTo :
    (f : ℕ) (s lit : Text) {segs : List Segment}
    → length s ≤ f
    → Boundary lit s
    → scan f s lit ≡ ok segs
    → ScansTo lit s segs
unfolding scan
scan-ScansTo zero [] lit p b e = subst (ScansTo lit []) (ok_injective e) (flush-ScansTo lit)
scan-ScansTo zero (c ∷ s) lit p b e = absurd (omega arith)
scan-ScansTo (suc f) [] lit p b e = subst (ScansTo lit []) (ok_injective e) (flush-ScansTo lit)
scan-ScansTo (suc f) (c ∷ s) lit {segs} p b e = elim (Bool-cases (has_prefix (c ∷ s) escape_mark)) [
  | inl esc ↦ escape-ScansTo c s lit esc (
      scan-ScansTo f (drop 2 s) (lit ++ open_mark) (omega (arith, length-drop 2 s))
        (λ h. cc (ends_in_dollar-append_mark lit)) (rw esc at e))
  | inr not_esc ↦ elim (Bool-cases (has_prefix (c ∷ s) open_mark)) [
    | inl opens ↦
        let read =
          token_rest-TokenRead (λ after. scan f after []) lit (drop 1 s)
            (rw opens at (rw not_esc at e)) in
        let inner =
          scan-ScansTo f read.after []
            (omega (
              arith,
              length-cut b')' (drop 1 s) read.body read.after read.cut_body,
              length-drop 1 s,
            ))
            (λ h. cc) read.read_behind in
        subst (λ (t : Text). ScansTo lit t segs) (sym (open_shape c s opens))
          (subst (ScansTo lit (b'$' ∷ b'(' ∷ drop 1 s)) read.is_segs (
            read_token-ScansTo lit (drop 1 s) read.body read.scheme read.path read.after
              read.cut_body read.cut_scheme read.is_valid (not_dollar lit c s b opens) inner))
    | inr not_open ↦ plain-ScansTo c s lit b (
        scan-ScansTo f s (lit ++ c ∷ []) (omega arith) (Boundary-plain c s lit not_esc not_open)
          (rw not_open at (rw not_esc at e)))
  ]
]

-- Whatever `scanTokens` returns is of its form, and written back as text it is what was scanned.
pub scan_tokens-IsScanned :
    (s : Text) {segs : List Segment} → scan_tokens s ≡ ok segs → IsScanned segs × (render segs ≡ s)
unfolding scan_tokens escape
scan_tokens-IsScanned s e =
    let r = scan-ScansTo (length s) s [] (omega arith) (λ h. cc) e in (r.scanned, r.renders)
