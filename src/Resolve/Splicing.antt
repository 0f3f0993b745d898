-- ===== src/Resolve/Splicing.antt =====
-- What the resolution of one scalar gives.
use go_flexconf.Resolve.{Loader, resolve_scalar, resolve_scanned, static, first_literal}
use go_flexconf.Template.{Segment, scan_tokens, has_tokens, open_mark}
use go_flexconf.Base.{Bool-cases, List, inl, inr, true, ◌≡◌, false, refl, subst, sym, ◌∙◌}
use go_flexconf.Node.{Scalar}
use go_flexconf.Text.{Text, contains}
use go_flexconf.Errors.{ok, >>=-eq-ok, err, err_ne_ok, ok_injective, wraps, ◌>>=◌, unknown_scheme}

resolve_scalar-bare :
    (l : Loader) (file : Text) (s : Scalar)
    → contains s.value open_mark ≡ false
    → resolve_scalar l file s ≡ ok s
unfolding resolve_scalar
resolve_scalar-bare l file s h = simp h

resolve_scalar-marked :
    (l : Loader) (file : Text) (s : Scalar)
    → contains s.value open_mark ≡ true
    → resolve_scalar l file s ≡ (scan_tokens s.value >>= λ segs. resolve_scanned l file s segs)
unfolding resolve_scalar
resolve_scalar-marked l file s h = simp h

-- The tag and the marks of a scalar are kept.
abbrev Marked : Scalar → Scalar → Type 0
Marked s t = (t.tag ≡ s.tag) × (t.secret ≡ s.secret) × (t.substituted ≡ s.substituted)

unmarked :
    (s : Scalar) (value : Text) {t : Scalar} → ok (record s { value = value }) ≡ ok t → Marked s t
unmarked s value h = subst (Marked s) (ok_injective h) (refl, refl, refl)

scanned-static :
    (l : Loader) (file : Text) (s : Scalar) (segs : List Segment) {t : Scalar}
    → static l ≡ true
    → resolve_scanned l file s segs ≡ ok t
    → Marked s t
scanned-static l file s segs {t} fixed h = elim (Bool-cases (has_tokens segs)) [
  | inl tokens ↦
      let refused : resolve_scanned l file s segs ≡ err (wraps unknown_scheme) =
        rw (tokens, fixed) in
      absurd (err_ne_ok (sym refused ∙ h))
  | inr none_there ↦
      let escapes : resolve_scanned l file s segs ≡ ok (record s { value = first_literal segs }) =
        rw none_there in
      unmarked s (first_literal segs) (sym escapes ∙ h)
]

-- A static Loader substitutes nothing: a scalar that it resolves keeps its tag and its marks.
pub resolve_scalar-static :
    (l : Loader) (file : Text) (s : Scalar) {t : Scalar}
    → static l ≡ true
    → resolve_scalar l file s ≡ ok t
    → (t.tag ≡ s.tag) × (t.secret ≡ s.secret) × (t.substituted ≡ s.substituted)
resolve_scalar-static l file s {t} fixed h = elim (Bool-cases (contains s.value open_mark)) [
  | inr bare ↦ unmarked s s.value (sym (resolve_scalar-bare l file s bare) ∙ h)
  | inl marked ↦
      let (segs, scanned, rest) =
        >>=-eq-ok (scan_tokens s.value) _ (sym (resolve_scalar-marked l file s marked) ∙ h) in
      scanned-static l file s segs fixed rest
]
