-- ===== src/Keepass/Secrets.antt =====
-- The groups of a database as a map from addresses to secrets.
use go_flexconf.Keepass.{
  Library, get_secret, set_secret, Entry, find_entry, new_entry, overwrite, protected_value,
  set_content, set_entry, found_password, Group, find_group, update_group, password_at, write_in,
}
use go_flexconf.Base.{
  List, Option, Option-cases, [], if◌then◌else◌, inl, inr, none, some, ℕ, ◌++◌, ◌∷◌, ◌≡◌,
  Bool-cases, ap, arith, ◌&&◌, refl, subst, true,
}
use go_flexconf.Errors.{ok}
use go_flexconf.Text.{Text, text, text_eq}
use go_flexconf.Text.Laws.{text_eq_iff}
use go_flexconf.Node.Merging.{at}

-- What gokeepasslib documents of its methods: the title and the password are the contents of the
-- values keyed "Title" and "Password", and the index is where the latter stands.
pub record Documented {W : Type 0} (lib : Library W) : Type 0 where
  pub title_new : (key value : Text) → lib.title (new_entry lib key value) ≡ key
  pub password_new : (key value : Text) → lib.password (new_entry lib key value) ≡ value
  pub password_set :
      (e : Entry) (i : ℕ) (value : Text)
      → lib.password_index e ≡ some i
      → lib.password (set_content i value e) ≡ value
  pub title_set :
      (e : Entry) (i : ℕ) (value : Text)
      → lib.password_index e ≡ some i
      → lib.title (set_content i value e) ≡ lib.title e
  pub password_added :
      (e : Entry) (value : Text)
      → lib.password_index e ≡ none
      → lib.password (e ++ protected_value (text "Password") value ∷ []) ≡ value
  pub title_added :
      (e : Entry) (value : Text)
      → lib.password_index e ≡ none
      → lib.title (e ++ protected_value (text "Password") value ∷ []) ≡ lib.title e

module _ {W : Type 0} (lib : Library W) (doc : Documented lib) where
  overwrite-title : (value : Text) (e : Entry) → lib.title (overwrite lib value e) ≡ lib.title e
  unfolding overwrite
  overwrite-title value e = elim (Option-cases (lib.password_index e)) [
    | inl absent ↦ rw (absent, overwrite) (doc.title_added e value absent)
    | inr (i, at) ↦ rw (at, overwrite) (doc.title_set e i value at)
  ]

  overwrite-password : (value : Text) (e : Entry) → lib.password (overwrite lib value e) ≡ value
  unfolding overwrite
  overwrite-password value e = elim (Option-cases (lib.password_index e)) [
    | inl absent ↦ rw (absent, overwrite) (doc.password_added e value absent)
    | inr (i, at) ↦ rw (at, overwrite) (doc.password_set e i value at)
  ]

  get-set_entry :
      (key value k : Text) (entries : List Entry)
      → found_password lib (find_entry lib k (set_entry lib key value entries))
        ≡ (if text_eq key k then ok value else found_password lib (find_entry lib k entries))
  unfolding find_entry set_entry
  get-set_entry key value k [] = elim (Bool-cases (text_eq key k)) [
    | inl same ↦ rw (doc.title_new key value, same) (ap ok (doc.password_new key value))
    | inr other ↦ rw (doc.title_new key value, other)
  ]
  get-set_entry key value k (e ∷ entries) = ground (
    arith,
    text_eq_iff (lib.title e) key,
    text_eq_iff (lib.title e) k,
    text_eq_iff key k,
    overwrite-title value e,
    overwrite-password value e,
    get-set_entry key value k entries,
  )

  abbrev map_group : (Group → Group) → Option Group → Option Group
  map_group f none = none
  map_group f (some g) = some (f g)

  find_group-update :
      (name n : Text) (f : Group → Group) (groups : List Group)
      → ((g : Group) → (f g).name ≡ g.name)
      → find_group n (update_group name f groups)
        ≡ (if text_eq name n then map_group f (find_group n groups) else find_group n groups)
  unfolding find_group update_group
  find_group-update name n f [] keeps = ground arith
  find_group-update name n f (g ∷ groups) keeps = ground (
    arith,
    keeps g,
    text_eq_iff g.name name,
    text_eq_iff g.name n,
    text_eq_iff name n,
    find_group-update name n f groups keeps,
  )

  find_group-append :
      (n : Text) (groups : List Group) (g : Group)
      → find_group g.name groups ≡ none
      → find_group n (groups ++ g ∷ []) ≡ (if text_eq g.name n then some g else find_group n groups)
  unfolding find_group
  find_group-append n [] g h = ground arith
  find_group-append n (x ∷ groups) g h = ground (
    arith,
    text_eq_iff x.name g.name,
    text_eq_iff x.name n,
    text_eq_iff g.name n,
    find_group-append n groups g,
  )

  get-set_group :
      (key value k : Text) (o : Option Group) (g : Group)
      → o ≡ some g
      → password_at lib k (map_group (write_in lib key value) o)
        ≡ (if text_eq key k then ok value else password_at lib k o)
  get-set_group key value k none g h = cc
  get-set_group key value k (some x) g h = get-set_entry key value k x.entries

  same_group :
      (ns n : Text) (groups : List Group) {o : Option Group}
      → text_eq ns n ≡ true
      → find_group ns groups ≡ o
      → find_group n groups ≡ o
  same_group ns n groups {o} same e =
      subst (λ (t : Text). find_group t groups ≡ o) ((text_eq_iff ns n).0 same) e

  -- The two ways in which `Set` finds the namespace, seen from any address.
  get-created :
      (ns key value n k : Text) (groups : List Group)
      → find_group ns groups ≡ none
      → password_at lib k (
          find_group n (groups ++ write_in lib key value (record { name = ns; entries = [] }) ∷ []))
        ≡ (if text_eq ns n && text_eq key k
            then ok value
            else password_at lib k (find_group n groups))
  get-created ns key value n k groups absent =
      let new = write_in lib key value (record { name = ns; entries = [] }) in
      rw (find_group-append n groups new absent) (elim (Bool-cases (text_eq ns n)) [
        | inl same ↦
            rw (same, same_group ns n groups same absent)
              (unfold find_entry in get-set_entry key value k [])
        | inr other ↦ rw other
      ])

  get-updated :
      (ns key value n k : Text) (groups : List Group) (g : Group)
      → find_group ns groups ≡ some g
      → password_at lib k (find_group n (update_group ns (write_in lib key value) groups)) ≡ (
          if text_eq ns n && text_eq key k
          then ok value
          else password_at lib k (find_group n groups))
  get-updated ns key value n k groups g there =
      rw (find_group-update ns n (write_in lib key value) groups (λ g. refl))
        (elim (Bool-cases (text_eq ns n)) [
          | inl same ↦ rw same (
              get-set_group key value k (find_group n groups) g (same_group ns n groups same there))
          | inr other ↦ rw other
        ])

  -- Over a library that does what it documents: after `Set` an address holds the value that was
  -- set, and every other address, of the same namespace or of another, holds what it held: a
  -- secret, or none.
  pub get_secret-set_secret :
      (ns key value n k : Text) (groups : List Group)
      → get_secret lib n k (set_secret lib ns key value groups)
        ≡ (if text_eq ns n && text_eq key k then ok value else get_secret lib n k groups)
  unfolding get_secret set_secret
  get_secret-set_secret ns key value n k groups = elim (Option-cases (find_group ns groups)) [
    | inl absent ↦ rw (absent, set_secret) (get-created ns key value n k groups absent)
    | inr (g, there) ↦ rw (there, set_secret) (get-updated ns key value n k groups g there)
  ]
