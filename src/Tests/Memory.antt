-- ===== src/Tests/Memory.antt =====
-- A file system in memory, and entries that are searched by the key of a value.
use go_flexconf.Keepass.{
  no_file, present, Database, Entry, Library, ValueData, decoded, broken, set_content,
  protected_value, Decoded,
}
use go_flexconf.Keepass.Secrets.{Documented}
use go_flexconf.Keepass.Storage.Saving.{Atomic}
use go_flexconf.Base.{
  Option, [], if◌then◌else◌, none, some, suc, zero, ℕ, ◌++◌, ◌∷◌, ◌≡◌, Bool-cases, Option-cases, ap,
  arith, false, inl, inr, length, length-append, refl, sym, true, ◌+◌, ◌∙◌, ◌≢◌,
}
use go_flexconf.Text.{Text, text, text_eq}
use go_flexconf.Errors.{err, ok, plain, ok_injective}
use go_flexconf.Text.Laws.{text_eq_iff}
use go_flexconf.Node.Merging.{at}

unfoldable pub value_of : Text → Entry → Text
unfolding text_eq
value_of key [] = []
value_of key (v ∷ e) = if text_eq v.key key then v.content else value_of key e

abbrev pub next_index : Option ℕ → Option ℕ
next_index none = none
next_index (some i) = some (suc i)

unfoldable pub index_of : Text → Entry → Option ℕ
unfolding text_eq
index_of key [] = none
index_of key (v ∷ e) = if text_eq v.key key then some zero else next_index (index_of key e)

abbrev pub Files : Type 0
Files = Text → Option Database

abbrev pub put : Text → Option Database → Files → Files
put p db w q = if text_eq q p then db else w q

abbrev decoding : Option Database → Decoded
decoding none = broken
decoding (some db) = decoded db

abbrev pub memory : Library Files
memory = record {
  title = value_of (text "Title");
  password = value_of (text "Password");
  password_index = index_of (text "Password");
  open_file = λ p w. (elim (w p) [ none ↦ err plain | some db ↦ ok tt ], w);
  key_data = λ creds w. (ok tt, w);
  decode = λ p creds w. (decoding (w p), w);
  unlock_entries = λ db w. (ok tt, w);
  lock_entries = λ db w. (ok tt, w);
  stat = λ p w. (elim (w p) [ none ↦ no_file | some db ↦ present ], w);
  make_dir_of = λ p w. (ok tt, w);
  create_file = λ p w. (ok tt, w);
  temp_beside = λ f w. (ok (f ++ text ".tmp"), w);
  encode = λ tmp db w. (ok tt, put tmp (some db) w);
  close = λ tmp w. (ok tt, w);
  rename = λ tmp p w. (ok tt, put p (w tmp) w);
  remove = λ tmp w. put tmp none w;
}

index_of-tail :
    (key : Text) (v : ValueData) (e : Entry) (i : ℕ)
    → index_of key (v ∷ e) ≡ some (suc i)
    → (text_eq v.key key ≡ false) × (index_of key e ≡ some i)
unfolding index_of
index_of-tail key v e i h = elim (Bool-cases (text_eq v.key key)) [
  | inl same ↦ ground (arith, h, same)
  | inr other ↦ elim (Option-cases (index_of key e)) [
    | inl absent ↦ ground (arith, h, other, absent)
    | inr (j, at) ↦ ground (arith, h, other, at)
  ]
]

index_of-head :
    (key : Text) (v : ValueData) (e : Entry)
    → index_of key (v ∷ e) ≡ some zero
    → text_eq v.key key ≡ true
unfolding index_of
index_of-head key v e h = elim (Bool-cases (text_eq v.key key)) [
  | inl same ↦ same
  | inr other ↦ elim (Option-cases (index_of key e)) [
    | inl absent ↦ ground (arith, h, other, absent)
    | inr (j, at) ↦ ground (arith, h, other, at)
  ]
]

value_of-set :
    (key value : Text) (e : Entry) (i : ℕ)
    → index_of key e ≡ some i
    → value_of key (set_content i value e) ≡ value
unfolding value_of index_of set_content
value_of-set key value [] i h = cc
value_of-set key value (v ∷ e) zero h = rw (index_of-head key v e h)
value_of-set key value (v ∷ e) (suc i) h =
    let (other, at) = index_of-tail key v e i h in rw other (value_of-set key value e i at)

value_of-set_other :
    (key k value : Text) (e : Entry) (i : ℕ)
    → text_eq key k ≡ false
    → index_of key e ≡ some i
    → value_of k (set_content i value e) ≡ value_of k e
unfolding value_of index_of set_content
value_of-set_other key k value [] i o h = cc
value_of-set_other key k value (v ∷ e) zero o h =
    let hit = index_of-head key v e h in ground (arith, text_eq_iff v.key key, hit, o)
value_of-set_other key k value (v ∷ e) (suc i) o h =
    ground (arith, value_of-set_other key k value e i o (index_of-tail key v e i h).1)

value_of-append :
    (key k value : Text) (e : Entry)
    → index_of key e ≡ none
    → value_of k (e ++ protected_value key value ∷ [])
      ≡ (if text_eq key k then value else value_of k e)
unfolding value_of index_of
value_of-append key k value [] h = refl
value_of-append key k value (v ∷ e) h = elim (Bool-cases (text_eq v.key key)) [
  | inl same ↦ ground (arith, h, same)
  | inr other ↦ elim (Option-cases (index_of key e)) [
    | inr (j, at) ↦ ground (arith, h, other, at)
    | inl absent ↦ ground (
      arith,
      other,
      text_eq_iff v.key k,
      text_eq_iff v.key key,
      text_eq_iff key k,
      value_of-append key k value e absent,
    )
  ]
]

pub memory-Documented : Documented memory
unfolding value_of
memory-Documented = record {
  title_new = λ key value. refl;
  password_new = λ key value. refl;
  password_set = λ e i value h. value_of-set (text "Password") value e i h;
  title_set = λ e i value h. value_of-set_other (text "Password") (text "Title") value e i refl h;
  password_added = λ e value h. value_of-append (text "Password") (text "Password") value e h;
  title_added = λ e value h. value_of-append (text "Password") (text "Title") value e h;
}

text_eq_refl : (p : Text) → text_eq p p ≡ true
text_eq_refl p = (text_eq_iff p p).1 refl

text_ne : (p q : Text) → q ≢ p → text_eq p q ≡ false
text_ne p q h = elim (Bool-cases (text_eq p q)) [
  | inl same ↦ absurd (h (sym ((text_eq_iff p q).0 same)))
  | inr other ↦ other
]

longer : (f : Text) → f ++ text ".tmp" ≢ f
longer f h =
    let n : length (f ++ text ".tmp") ≡ length f + 4 = length-append f (text ".tmp") in
    let m : length (f ++ text ".tmp") ≡ length f = ap length h in omega (arith, n, m)

pub memory-Atomic : Atomic memory (λ p w. w p)
memory-Atomic = record {
  lock_keeps = λ db p w. refl;
  unlock_keeps = λ db p w. refl;
  temp_keeps = λ f p w. refl;
  temp_apart = λ f w h e. longer f (ok_injective h ∙ e);
  encode_keeps = λ tmp p db w apart. rw (text_ne p tmp apart);
  encode_writes = λ tmp db w h. rw (text_eq_refl tmp);
  close_keeps = λ tmp p w. refl;
  rename_fails = λ tmp p w h. cc;
  rename_moves = λ tmp p w h. rw (text_eq_refl p);
  remove_keeps = λ tmp p w apart. rw (text_ne p tmp apart);
}
