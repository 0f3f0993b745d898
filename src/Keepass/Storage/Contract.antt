-- ===== src/Keepass/Storage/Contract.antt =====
-- The KeePass driver keeps the contract of the interface.
use go_flexconf.Driver.{Honours, Initializer}
use go_flexconf.Keepass
use go_flexconf.Keepass.{
  Driver, Library, KeepassConfig, Credentials, Database, Decoded, Group, db_credentials, root,
  configured_by, decoded, refused, broken,
}
use go_flexconf.Keepass.Storage
use go_flexconf.Prompt.{Answers}
use go_flexconf.Errors.{Result, ok, err}
use go_flexconf.Text.{Text}
use go_flexconf.Base.{none, ◌≡◌, ◌≢◌, Bool-cases, List, inl, inr, is_empty, subst, some_injective}
use go_flexconf.Keepass.Storage.{
  keepass, credentials_with, decoded_with, file_opened, keyed_with, opened_with, set_at, set_in,
  put_world, init_at,
}
use go_flexconf.Address.{parse_address}

-- The decrypted database is in memory.
abbrev pub IsUnlocked : {W : Type 0} → Driver W → Type 0
IsUnlocked d = d.db ≢ none

-- An outcome that is a success leaves the database open.
abbrev Opens : {W : Type 0} → Result (Unit {0}) × Driver W → Type 0
Opens r = r.0 ≡ ok tt → IsUnlocked r.1

module _ {W : Type 0} (lib : Library W) where
  opened_with-Opens :
      (d : Driver W) (db : Database) (r : Result (Unit {0}) × W) → Opens (opened_with lib d db r)
  opened_with-Opens d db (ok u, w) e = λ h. cc
  opened_with-Opens d db (err e', w) e = cc

  decoded_with-Opens : (d : Driver W) (r : Decoded × W) → Opens (decoded_with lib d r)
  decoded_with-Opens d (decoded db, w) e = opened_with-Opens d db (lib.unlock_entries db w) e
  decoded_with-Opens d (refused, w) e = cc
  decoded_with-Opens d (broken, w) e = cc

  keyed_with-Opens :
      (d : Driver W) (creds : Credentials) (r : Result (Unit {0}) × W)
      → Opens (keyed_with lib d creds r)
  keyed_with-Opens d creds (ok u, w) e = decoded_with-Opens d (lib.decode d.cfg.file creds w) e
  keyed_with-Opens d creds (err e', w) e = cc

  credentials_with-Opens :
      (d : Driver W) (w : W) (r : Result Credentials) → Opens (credentials_with lib d w r)
  credentials_with-Opens d w (ok creds) e = keyed_with-Opens d creds (lib.key_data creds w) e
  credentials_with-Opens d w (err e') e = cc

  file_opened-Opens :
      (d : Driver W) (a : Answers) (r : Result (Unit {0}) × W) → Opens (file_opened lib d a r)
  file_opened-Opens d a (ok u, w) e = credentials_with-Opens d w (db_credentials d.cfg a) e
  file_opened-Opens d a (err e', w) e = cc

  unlock-Opens : (a : Answers) (d : Driver W) → Opens (Storage.unlock lib a d)
  unfolding Storage.unlock
  unlock-Opens a d = elim (Bool-cases d.configured) [
    | inl c ↦ simp c (file_opened-Opens d a (lib.open_file d.cfg.file d.world))
    | inr not_yet ↦ simp not_yet (λ e. cc)
  ]

  set_at-IsUnlocked :
      (d : Driver W) (value : Text) (groups : List Group) (r : Result (Text × Text))
      → IsUnlocked d
      → IsUnlocked (set_at lib d value groups r).1
  set_at-IsUnlocked d value groups (err e) h = h
  set_at-IsUnlocked d value groups (ok (ns, key)) h = λ e. cc

  set_in-IsUnlocked :
      (addr value : Text) (d : Driver W) (r : Result (List Group))
      → IsUnlocked d
      → IsUnlocked (set_in lib addr value d r).1
  set_in-IsUnlocked addr value d (err e) h = h
  set_in-IsUnlocked addr value d (ok groups) h = elim (Bool-cases d.cfg.read_only) [
    | inl read_only ↦ simp read_only h
    | inr writable ↦ simp writable (set_at-IsUnlocked d value groups (parse_address addr) h)
  ]

  configured_by-IsUnlocked :
      (d : Driver W) (c : Result KeepassConfig) → IsUnlocked d → IsUnlocked (configured_by d c).1
  configured_by-IsUnlocked d (err e) h = h
  configured_by-IsUnlocked d (ok c) h = elim (Bool-cases (is_empty c.file)) [
    | inl empty ↦ rw empty h
    | inr named ↦ rw named h
  ]

  put_world-IsUnlocked :
      (d : Driver W) (r : Result (Unit {0}) × W) → IsUnlocked d → IsUnlocked (put_world lib d r).1
  put_world-IsUnlocked d (r, w) h = h

  init-IsUnlocked :
      (a : Answers) (d : Driver W) → IsUnlocked d → IsUnlocked (Storage.init lib a d).1
  unfolding Storage.init
  init-IsUnlocked a d h = elim (Bool-cases d.configured) [
    | inl c ↦ simp c (put_world-IsUnlocked d (init_at lib d a (lib.stat d.cfg.file d.world)) h)
    | inr not_yet ↦ simp not_yet h
  ]

  -- The driver honours the interface: a successful `Unlock` leaves the database decrypted in
  -- memory, and neither an access nor `Configure` nor `Init`, failed or not, drops it.
  pub keepass-Honours : Honours (Storage.keepass lib) IsUnlocked
  unfolding Keepass.configure Keepass.get Keepass.list Storage.set
  keepass-Honours = record {
    unlock_opens = unlock-Opens;
    configure_keeps = λ c d h. configured_by-IsUnlocked d c h;
    get_keeps = λ addr d h. h;
    set_keeps = λ addr value d h. set_in-IsUnlocked addr value d (root d) h;
    list_keeps = λ ns d h. h;
    init_keeps = λ i a d e h.
        subst (λ (j : Initializer (Driver W)). IsUnlocked (j.init a d).1) (some_injective e)
          (init-IsUnlocked a d h);
  }
