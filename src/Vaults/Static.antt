-- ===== src/Vaults/Static.antt =====
-- The rule that definitions are static.
use go_flexconf.Vaults.{
  Yaml, YamlMap, YamlSeq, check_static, check_map, check_seq, string_value, map_value, foreign_map,
  seq_value, entry, item, other, no_entry, no_item,
}
use go_flexconf.Base.{
  All, All-append, Bool-cases, List, [], ap, false, inl, inr, refl, ◌++◌, ◌↔◌, ◌∙◌, ◌∷◌, ◌≡◌,
}
use go_flexconf.Errors.{Result, err, err_ne_ok, ok, ◌>>◌}
use go_flexconf.Text.{Text, contains, text}

-- The strings that stand in a value, at any depth of its sequences and of its maps with string keys;
-- the keys of the maps are not among them, nor is what a map with another key holds.
unfoldable mutual
  pub strings : Yaml → List Text
  strings (string_value v) = v ∷ []
  strings (map_value m) = map_strings m
  strings (seq_value s) = seq_strings s
  strings (foreign_map m) = []
  strings other = []

  pub map_strings : YamlMap → List Text
  map_strings no_entry = []
  map_strings (entry k v m) = strings v ++ map_strings m

  pub seq_strings : YamlSeq → List Text
  seq_strings no_item = []
  seq_strings (item v s) = strings v ++ seq_strings s

abbrev pub Tokenless : Text → Type 0
Tokenless t = contains t (text "$(") ≡ false

abbrev pub IsStatic : Yaml → Type 0
IsStatic v = All Tokenless (strings v)

pub both-ok {ℓ} :
    {A : Type ℓ} {a : A} (r : Result (Unit {0})) {s : Result A}
    → (r >> s) ≡ ok a
    → (r ≡ ok tt) × (s ≡ ok a)
both-ok (ok u) h = (refl, h)
both-ok (err e) h = cc

All-left : (l m : List Text) → All Tokenless (l ++ m) → All Tokenless l × All Tokenless m
All-left [] m h = (tt, h)
All-left (t ∷ l) m h = let (a, b) = All-left l m h.1 in ((h.0, a), b)

mutual
  unfolding check_static strings

  pub check_static-IsStatic : (v : Yaml) → check_static v ≡ ok tt → IsStatic v
  check_static-IsStatic (string_value v) h = elim (Bool-cases (contains v (text "$("))) [
    | inl token ↦ absurd (err_ne_ok (rw token at h))
    | inr none_there ↦ (none_there, tt)
  ]
  check_static-IsStatic (map_value m) h = check_map-All m h
  check_static-IsStatic (seq_value s) h = check_seq-All s h
  check_static-IsStatic (foreign_map m) h = tt
  check_static-IsStatic other h = tt

  check_map-All : (m : YamlMap) → check_map m ≡ ok tt → All Tokenless (map_strings m)
  check_map-All no_entry h = tt
  check_map-All (entry k v m) h =
      let (here, rest) = both-ok (check_static v) h in
      All-append Tokenless (strings v) (map_strings m) (check_static-IsStatic v here)
        (check_map-All m rest)

  check_seq-All : (s : YamlSeq) → check_seq s ≡ ok tt → All Tokenless (seq_strings s)
  check_seq-All no_item h = tt
  check_seq-All (item v s) h =
      let (here, rest) = both-ok (check_static v) h in
      All-append Tokenless (strings v) (seq_strings s) (check_static-IsStatic v here)
        (check_seq-All s rest)

mutual
  unfolding check_static strings

  pub IsStatic-check_static : (v : Yaml) → IsStatic v → check_static v ≡ ok tt
  IsStatic-check_static (string_value v) h = rw h.0
  IsStatic-check_static (map_value m) h = All-check_map m h
  IsStatic-check_static (seq_value s) h = All-check_seq s h
  IsStatic-check_static (foreign_map m) h = refl
  IsStatic-check_static other h = refl

  All-check_map : (m : YamlMap) → All Tokenless (map_strings m) → check_map m ≡ ok tt
  All-check_map no_entry h = refl
  All-check_map (entry k v m) h =
      let (here, rest) = All-left (strings v) (map_strings m) h in
      ap (λ r. r >> check_map m) (IsStatic-check_static v here) ∙ All-check_map m rest

  All-check_seq : (s : YamlSeq) → All Tokenless (seq_strings s) → check_seq s ≡ ok tt
  All-check_seq no_item h = refl
  All-check_seq (item v s) h =
      let (here, rest) = All-left (strings v) (seq_strings s) h in
      ap (λ r. r >> check_seq s) (IsStatic-check_static v here) ∙ All-check_seq s rest

-- A value is accepted exactly when none of the strings in it, at any depth of its sequences and of its
-- maps with string keys, has the beginning of a token in it; what a map with a key that is no string
-- holds is accepted with any token.
pub check_static_iff : (v : Yaml) → (check_static v ≡ ok tt) ↔ All Tokenless (strings v)
check_static_iff v = (check_static-IsStatic v, IsStatic-check_static v)
