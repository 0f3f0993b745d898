-- ===== src/Keepass.antt =====
-- flexvault/driver/keepass/keepass.go: the KeePass driver. What gokeepasslib says of an entry, and
-- what it and the operating system do with the database file, are parameters. A protected entry
-- is seen unlocked, as the driver keeps it in memory. `W` is the file system.
pub mod Storage
pub mod Secrets
use go_flexconf.Driver.{VaultDriver, Capabilities}
use go_flexconf.Action.{Action}
use go_flexconf.Prompt.{Answers, PromptRequest}
use go_flexconf.Base.{
  Bool, List, Option, [], false, if◌then◌else◌, is_empty, map, none, not, some, suc, true, zero, ℕ,
  ◌&&◌, ◌++◌, ◌∷◌,
}
use go_flexconf.Errors.{Result, err, ok, plain, wraps, ◌>>=◌, ◌>>◌, auth, locked, not_found}
use go_flexconf.Text.{Text, text, text_eq}
use go_flexconf.Dict.{lookup}
use go_flexconf.Address.{parse_address}
use go_flexconf.Node.Merging.{at}

pub record KeepassConfig : Type 0 where
  pub file : Text
  pub key_file : Text
  pub read_only : Bool

pub record ValueData : Type 0 where
  pub key : Text
  pub content : Text
  pub protected : Bool

abbrev pub Entry : Type 0
Entry = List ValueData

-- A group below the root: a namespace. Groups below it are never read, and left out.
pub record Group : Type 0 where
  pub name : Text
  pub entries : List Entry

-- The groups of the root group, or `none` for a database without one.
pub record Database : Type 0 where
  pub root : Option (List Group)

abbrev pub Credentials : Type 0
Credentials = Option Text × Option Text

-- What decoding a file comes to: `refused` is ErrInvalidDatabaseOrCredentials, or an error whose
-- text contains "Wrong password".
pub data Decoded : Type 0 where
  decoded : Database → Decoded
  refused broken : Decoded

-- What os.Stat says of a path.
pub data Stat : Type 0 where
  present no_file unknown : Stat

-- gokeepasslib's methods of an entry, and the steps that read and write a database file.
pub record Library (W : Type 0) : Type 0 where
  pub title : Entry → Text
  pub password : Entry → Text
  pub password_index : Entry → Option ℕ
  pub open_file : Text → Action W (Unit {0})
  pub key_data : Credentials → Action W (Unit {0})
  pub decode : Text → Credentials → W → Decoded × W
  pub unlock_entries : Database → Action W (Unit {0})
  pub lock_entries : Database → Action W (Unit {0})
  pub stat : Text → W → Stat × W
  pub make_dir_of : Text → Action W (Unit {0})
  pub create_file : Text → Action W (Unit {0})
  pub temp_beside : Text → Action W Text
  pub encode : Text → Database → Action W (Unit {0})
  pub close : Text → Action W (Unit {0})
  pub rename : Text → Text → Action W (Unit {0})
  pub remove : Text → W → W

pub record Driver (W : Type 0) : Type 0 where
  pub cfg : KeepassConfig
  pub configured : Bool
  pub db : Option Database
  pub world : W

abbrev pub cred_password : Text
cred_password = text "password"

abbrev pub plain_value : Text → Text → ValueData
plain_value key value = record { key = key; content = value; protected = false }

abbrev pub protected_value : Text → Text → ValueData
protected_value key value = record { key = key; content = value; protected = true }

-- e.Values[i].Value.Content = value
unfoldable pub set_content : ℕ → Text → Entry → Entry
set_content i value [] = []
set_content zero value (v ∷ e) = record v { content = value } ∷ e
set_content (suc i) value (v ∷ e) = v ∷ set_content i value e

unfoldable pub find_group : Text → List Group → Option Group
unfolding text_eq
find_group name [] = none
find_group name (g ∷ groups) = if text_eq g.name name then some g else find_group name groups

-- The caller of `findGroup` writes through the pointer that it returns.
unfoldable pub update_group : Text → (Group → Group) → List Group → List Group
unfolding text_eq
update_group name f [] = []
update_group name f (g ∷ groups) =
    if text_eq g.name name then f g ∷ groups else g ∷ update_group name f groups

-- Configure, of what the decoder yields
abbrev configured_by : {W : Type 0} → Driver W → Result KeepassConfig → Result (Unit {0}) × Driver W
configured_by d (err e) = (err e, d)
configured_by d (ok c) =
    if is_empty c.file then (err plain, d) else (ok tt, record d { cfg = c; configured = true })

unfoldable pub configure : {W : Type 0} → Result KeepassConfig → Action (Driver W) (Unit {0})
configure settings d = configured_by d settings

unfoldable pub capabilities : {W : Type 0} → Driver W → Capabilities
capabilities d =
    if not d.configured
    then record { writable = false; creatable = false }
    else record { writable = not d.cfg.read_only; creatable = true }

unfoldable pub credentials : {W : Type 0} → Driver W → List PromptRequest
credentials d =
    record {
      id = cred_password;
      label = text "KeePass master password (" ++ d.cfg.file ++ text ")";
      secret = true;
      optional = not (is_empty d.cfg.key_file);
      default_value = [];
      confirm = false;
    }
    ∷ []

unfoldable pub init_credentials : {W : Type 0} → Driver W → List PromptRequest
init_credentials d =
    record {
      id = cred_password;
      label = text "New KeePass master password (" ++ d.cfg.file ++ text ")";
      secret = true;
      optional = not (is_empty d.cfg.key_file);
      default_value = [];
      confirm = true;
    }
    ∷ []

-- answers[CredPassword], which is empty for an absent key
abbrev password_of : Option Text → Text
password_of none = []
password_of (some pw) = pw

-- The choice that the method credentials makes.
unfoldable pub db_credentials : KeepassConfig → Answers → Result Credentials
unfolding lookup
db_credentials cfg answers =
    let pw = password_of (lookup cred_password answers) in
    if not (is_empty cfg.key_file) && not (is_empty pw)
    then ok (some pw, some cfg.key_file)
    else if not (is_empty cfg.key_file)
    then ok (none, some cfg.key_file)
    else if not (is_empty pw)
    then ok (some pw, none)
    else err (wraps auth)

unfoldable pub lock : {W : Type 0} → Action (Driver W) (Unit {0})
lock d = (ok tt, record d { db = none })

-- root
unfoldable pub root : {W : Type 0} → Driver W → Result (List Group)
root d = elim d.db [
  | none ↦ err (wraps locked)
  | some db ↦ elim db.root [ none ↦ err plain | some groups ↦ ok groups ]
]

module _ {W : Type 0} (lib : Library W) where
  unfoldable pub find_entry : Text → List Entry → Option Entry
  unfolding text_eq
  find_entry key [] = none
  find_entry key (e ∷ entries) =
      if text_eq (lib.title e) key then some e else find_entry key entries

  -- The new values of an entry that is there.
  unfoldable pub overwrite : Text → Entry → Entry
  unfolding set_content
  overwrite value e = elim (lib.password_index e) [
    | some i ↦ set_content i value e
    | none ↦ e ++ protected_value (text "Password") value ∷ []
  ]

  abbrev pub new_entry : Text → Text → Entry
  new_entry key value =
      plain_value (text "Title") key ∷ protected_value (text "Password") value ∷ []

  -- The entry of a group that `Set` writes: the first of that title, or a new one at the end.
  unfoldable pub set_entry : Text → Text → List Entry → List Entry
  unfolding overwrite text_eq
  set_entry key value [] = new_entry key value ∷ []
  set_entry key value (e ∷ entries) =
      if text_eq (lib.title e) key
      then overwrite value e ∷ entries
      else e ∷ set_entry key value entries

  abbrev write_in : Text → Text → Group → Group
  write_in key value g = record g { entries = set_entry key value g.entries }

  -- `Set` on the groups of the root: the namespace is created where it is not there.
  unfoldable pub set_secret : Text → Text → Text → List Group → List Group
  unfolding find_group update_group set_entry
  set_secret ns key value groups = elim (find_group ns groups) [
    | some g ↦ update_group ns (write_in key value) groups
    | none ↦ groups ++ write_in key value (record { name = ns; entries = [] }) ∷ []
  ]

  abbrev pub found_password : Option Entry → Result Text
  found_password none = err (wraps not_found)
  found_password (some e) = ok (lib.password e)

  abbrev password_at : Text → Option Group → Result Text
  password_at key none = err (wraps not_found)
  password_at key (some g) = found_password (find_entry key g.entries)

  -- `Get` on the groups of the root.
  unfoldable pub get_secret : Text → Text → List Group → Result Text
  unfolding find_group find_entry
  get_secret ns key groups = password_at key (find_group ns groups)

  unfoldable pub get : Text → Action (Driver W) Text
  unfolding root get_secret
  get addr d = ((do groups ← root d; at ← parse_address addr; get_secret at.0 at.1 groups), d)

  abbrev names_in : Option Group → List Text
  names_in none = []
  names_in (some g) = map lib.title g.entries

  unfoldable pub list : Text → Action (Driver W) (List Text)
  unfolding root find_group
  list ns d = (
    (do
      groups ← root d
      ok (if is_empty ns then map (λ g. g.name) groups else names_in (find_group ns groups))),
    d,
  )
