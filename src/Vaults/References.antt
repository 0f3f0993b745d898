-- ===== src/Vaults/References.antt =====
-- What a secret reference splits into.
use go_flexconf.Vaults.{colon_first, parse_ref, split_ref, named}
use go_flexconf.Text.Laws.{cut-CutAt, cut-append}
use go_flexconf.Base.{
  Bool-cases, [], arith, false, inl, inr, is_empty, refl, some, true, ◌++◌, ◌==◌, ◌∷◌, ◌≡◌, ◌≢◌,
  ◌⊎◌, List, ap, is_empty_ne_nil, subst, sym, ◌↔◌, ◌∙◌,
}
use go_flexconf.Text.{Text, contains_char, cut}
use go_flexconf.Errors.{ok, err, err_ne_ok, ok_injective, plain}

-- A name for a vault and an address, or an address alone; neither has a colon left, and a slash in
-- the name would have made it a part of the address.
pub record Named (vault addr : Text) : Type 0 where
  pub vault_ne_nil : vault ≢ []
  pub vault_lacks_colon : contains_char b':' vault ≡ false
  pub vault_lacks_slash : contains_char b'/' vault ≡ false
  pub addr_lacks_colon : contains_char b':' addr ≡ false

abbrev pub Splits : Text → Text → Text → Type 0
Splits s vault addr =
    ((vault ≡ []) × (addr ≡ s) × (contains_char b':' s ≡ false))
    ⊎ (Named vault addr × (s ≡ vault ++ b':' ∷ addr))

colon_first-cut :
    (s : Text)
    → colon_first s ≡ true
    → (p : Text × Text) × (cut b':' s ≡ some p) × (contains_char b'/' p.0 ≡ false)
unfolding colon_first cut contains_char
colon_first-cut [] h = cc
colon_first-cut (c ∷ s) h = elim (Bool-cases (c == b':')) [
  | inl same ↦ rw same (([], s), refl, refl)
  | inr other ↦ elim (Bool-cases (c == b'/')) [
    | inl slash ↦ ground (arith, h, other, slash)
    | inr no_slash ↦
        let ((before, after), found, lacks) =
          colon_first-cut s (ground (arith, h, other, no_slash)) in
        ((c ∷ before, after), rw (other, found), rw (no_slash, lacks))
  ]
]

lacks-colon_first : (s : Text) → contains_char b':' s ≡ false → colon_first s ≡ false
unfolding colon_first contains_char
lacks-colon_first [] h = refl
lacks-colon_first (c ∷ s) h = ground (arith, lacks-colon_first s)

append-colon_first :
    (v a : Text)
    → contains_char b'/' v ≡ false
    → contains_char b':' v ≡ false
    → colon_first (v ++ b':' ∷ a) ≡ true
unfolding colon_first contains_char
append-colon_first [] a h k = ground arith
append-colon_first (c ∷ v) a h k = ground (arith, append-colon_first v a)

split_ref-ok :
    (vault addr : Text) (p : Text × Text)
    → split_ref (some p) ≡ ok (vault, addr)
    → (is_empty p.0 ≡ false) × (contains_char b':' p.1 ≡ false) × (p ≡ (vault, addr))
split_ref-ok vault addr (v, a) h = elim (Bool-cases (is_empty v)) [
  | inl empty ↦ ground (arith, h, empty)
  | inr named ↦ elim (Bool-cases (contains_char b':' a)) [
    | inl colon ↦ ground (arith, h, named, colon)
    | inr lacks ↦
        let split : split_ref (some (v, a)) ≡ ok (v, a) = rw (named, lacks) in
        (named, lacks, ok_injective (sym split ∙ h))
  ]
]

is_empty-false : {A : Type 0} (l : List A) → is_empty l ≡ false → l ≢ []
is_empty-false [] h e = cc
is_empty-false (x ∷ l) h e = cc

parse_ref-Splits : (s vault addr : Text) → parse_ref s ≡ ok (vault, addr) → Splits s vault addr
unfolding parse_ref
parse_ref-Splits s vault addr h = elim (Bool-cases (colon_first s)) [
  | inl colon ↦
      let (p, found, no_slash) = colon_first-cut s colon in
      let at_cut : parse_ref s ≡ split_ref (some p) = rw (colon, found) in
      let (named, lacks, same) = split_ref-ok vault addr p (sym at_cut ∙ h) in
      let cut_at = cut-CutAt b':' s {before = p.0} {after = p.1} found in
      subst (λ (q : Text × Text). Splits s q.0 q.1) same
        (inr (
          record {
            vault_ne_nil = is_empty-false p.0 named;
            vault_lacks_colon = cut_at.first;
            vault_lacks_slash = no_slash;
            addr_lacks_colon = lacks;
          },
          cut_at.splits,
        ))
  | inr no_colon ↦ elim (Bool-cases (contains_char b':' s)) [
    | inl later ↦
        let refused : parse_ref s ≡ err plain = rw (no_colon, later) in
        absurd (err_ne_ok (sym refused ∙ h))
    | inr lacks ↦
        let whole : parse_ref s ≡ ok ([], s) = rw (no_colon, lacks) in
        subst (λ (q : Text × Text). Splits s q.0 q.1) (ok_injective (sym whole ∙ h))
          (inl (refl, refl, lacks))
  ]
]

parse_ref-Named :
    (vault addr : Text) → Named vault addr → parse_ref (vault ++ b':' ∷ addr) ≡ ok (vault, addr)
unfolding parse_ref
parse_ref-Named vault addr n = rw (
  append-colon_first vault addr n.vault_lacks_slash n.vault_lacks_colon,
  cut-append b':' vault addr n.vault_lacks_colon,
  is_empty_ne_nil vault n.vault_ne_nil,
  n.addr_lacks_colon,
)

parse_ref_plain : (s : Text) → contains_char b':' s ≡ false → parse_ref s ≡ ok ([], s)
unfolding parse_ref
parse_ref_plain s h = rw (lacks-colon_first s h, h)

Splits-parse_ref : (s vault addr : Text) → Splits s vault addr → parse_ref s ≡ ok (vault, addr)
Splits-parse_ref s vault addr (inl (no_name, whole, lacks)) =
    parse_ref_plain s lacks ∙ ap (λ (q : Text × Text). ok q) (λ i. (sym no_name i, sym whole i))
Splits-parse_ref s vault addr (inr (named, split)) =
    ap parse_ref split ∙ parse_ref-Named vault addr named

-- A reference is accepted exactly when it has no colon, and is then an address with no vault name,
-- or is a non-empty name without a slash, a colon and an address, with no other colon in it.
pub parse_ref_iff :
    (s vault addr : Text)
    → (parse_ref s ≡ ok (vault, addr)) ↔ (
        ((vault ≡ []) × (addr ≡ s) × (contains_char b':' s ≡ false))
        ⊎ (Named vault addr × (s ≡ vault ++ b':' ∷ addr)))
parse_ref_iff s vault addr = (parse_ref-Splits s vault addr, Splits-parse_ref s vault addr)
