-- ===== src/Address/Laws.antt =====
-- What an address is, and that the form in which the Manager passes it on is stable.
use go_flexconf.Address.{parse_address, join_address, check_address}
use go_flexconf.Text.{Text, cut, contains_char, trim_space}
use go_flexconf.Base.{
  ◌≢◌, [], ◌≡◌, false, Option-cases, inl, Bool-cases, ap, inr, is_empty_ne_nil, some, subst, sym,
  ◌↔◌, ◌∙◌, ◌∷◌,
}
use go_flexconf.Errors.{ok, err_ne_ok, ok_injective}
use go_flexconf.Text.Laws.{CutAt, cut-CutAt, cut-append}
use go_flexconf.Text.Trim.{trim_space_idem}

-- Two segments, neither empty, without a slash.
pub record IsAddress (namespace key : Text) : Type 0 where
  pub namespace_ne_nil : namespace ≢ []
  pub key_ne_nil : key ≢ []
  pub namespace_lacks_slash : contains_char b'/' namespace ≡ false
  pub key_lacks_slash : contains_char b'/' key ≡ false

checked-IsAddress :
    (s a b : Text) {namespace key : Text}
    → CutAt b'/' s a b
    → check_address (some (a, b)) ≡ ok (namespace, key)
    → IsAddress namespace key × (s ≡ join_address namespace key)
checked-IsAddress s [] b at e = absurd (err_ne_ok e)
checked-IsAddress s (c ∷ a) [] at e = absurd (err_ne_ok e)
checked-IsAddress s (c ∷ a) (d ∷ b) {namespace} {key} at e =
    elim (Bool-cases (contains_char b'/' (d ∷ b))) [
      | inl slash ↦ absurd (err_ne_ok (rw slash at e))
      | inr apart ↦
          let pair = ok_injective (rw apart at e) in
          subst (λ (p : Text × Text). IsAddress p.0 p.1 × (s ≡ join_address p.0 p.1)) pair
            (
              record {
                namespace_ne_nil = λ h. cc;
                key_ne_nil = λ h. cc;
                namespace_lacks_slash = at.first;
                key_lacks_slash = apart;
              },
              at.splits,
            )
    ]

check_address-IsAddress :
    (s : Text) {namespace key : Text}
    → check_address (cut b'/' s) ≡ ok (namespace, key)
    → IsAddress namespace key × (s ≡ join_address namespace key)
check_address-IsAddress s {namespace} {key} e = elim (Option-cases (cut b'/' s)) [
  | inl none_found ↦ absurd (err_ne_ok (rw none_found at e))
  | inr ((a, b), found) ↦ checked-IsAddress s a b (cut-CutAt b'/' s found) (rw found at e)
]

IsAddress-check :
    (namespace key : Text)
    → IsAddress namespace key
    → check_address (cut b'/' (join_address namespace key)) ≡ ok (namespace, key)
IsAddress-check namespace key h = rw (cut-append b'/' namespace key h.namespace_lacks_slash) (
    rw (
      is_empty_ne_nil namespace h.namespace_ne_nil,
      is_empty_ne_nil key h.key_ne_nil,
      h.key_lacks_slash,
    ))

-- An address is accepted exactly when, its surrounding white space trimmed, it is two non-empty
-- segments joined by the one slash, and those segments are the result.
pub parse_address_iff :
    (addr namespace key : Text)
    → (parse_address addr ≡ ok (namespace, key))
      ↔ (IsAddress namespace key × (trim_space addr ≡ join_address namespace key))
unfolding parse_address
parse_address_iff addr namespace key =
    (check_address-IsAddress (trim_space addr), λ (h, e). rw e (IsAddress-check namespace key h))

-- The normal form in which the Manager hands an address to its driver is read back by the driver
-- as the same segments.
pub parse_address_stable :
    (addr : Text) {namespace key : Text}
    → parse_address addr ≡ ok (namespace, key)
    → parse_address (join_address namespace key) ≡ ok (namespace, key)
parse_address_stable addr {namespace} {key} e =
    let (h, trimmed) = (parse_address_iff addr namespace key).0 e in
    (parse_address_iff (join_address namespace key) namespace key).1
      (h, ap trim_space (sym trimmed) ∙ trim_space_idem addr ∙ trimmed)
