-- ===== src/Keepass/Storage.antt =====
-- flexvault/driver/keepass/keepass.go: `Unlock`, `save`, `Set` and `Init`, and the driver as a
-- `VaultDriver`. An error of the library or the operating system wraps none of the sentinels.
pub mod Saving
pub mod Contract
pub mod Remembering
use go_flexconf.Action.{Action, ◌>>=◌}
use go_flexconf.Driver.{Initializer, VaultDriver}
use go_flexconf.Keepass
use go_flexconf.Keepass.{
  Stat, present, no_file, unknown, Driver, Library, Credentials, Database, Decoded, Group,
  KeepassConfig, credentials, db_credentials, root, set_secret, decoded, refused, broken,
  init_credentials,
}
use go_flexconf.Prompt.{Answers}
use go_flexconf.Base.{List, if◌then◌else◌, none, not, some, []}
use go_flexconf.Errors.{Result, err, ok, plain, wraps, auth, not_configured, read_only}
use go_flexconf.Text.{Text}
use go_flexconf.Address.{parse_address}

abbrev forget : {A : Type 0} → Result A → Result A
forget (ok a) = ok a
forget (err e) = err plain

module _ {W : Type 0} (lib : Library W) where
  abbrev step : {A : Type 0} → Action W A → Action W A
  step m w = let (r, w') = m w in (forget r, w')

  -- An action, and then the removal of the temporary file.
  abbrev then_remove : Text → Action W (Unit {0}) → Action W (Unit {0})
  then_remove tmp m w = let (r, w') = m w in (r, lib.remove tmp w')

  -- After an encoding that failed the temporary file is closed.
  abbrev encoded_into : Text → Text → Result (Unit {0}) → Action W (Unit {0})
  encoded_into tmp file (err e) w = (err plain, (lib.close tmp w).1)
  encoded_into tmp file (ok u) w = (step (lib.close tmp) >>= λ _. step (lib.rename tmp file)) w

  abbrev fill_and_rename : Text → Text → Database → Action W (Unit {0})
  fill_and_rename tmp file db w = let (r, w') = lib.encode tmp db w in encoded_into tmp file r w'

  -- The deferred UnlockProtectedEntries, whose error is dropped.
  abbrev then_unlock : Database → Action W (Unit {0}) → Action W (Unit {0})
  then_unlock db m w = let (r, w') = m w in (r, (lib.unlock_entries db w').1)

  -- A new temporary file, filled and put in the place of `file`.
  abbrev replace_file : Text → Database → Action W (Unit {0})
  replace_file file db =
      step (lib.temp_beside file) >>= λ tmp. then_remove tmp (fill_and_rename tmp file db)

  -- save
  unfoldable pub save : Text → Database → Action W (Unit {0})
  save file db = step (lib.lock_entries db) >>= λ _. then_unlock db (replace_file file db)

  abbrev saved_with : Driver W → Database → Result (Unit {0}) × W → Result (Unit {0}) × Driver W
  saved_with d db (r, w) = (r, record d { db = some db; world = w })

  -- The groups are changed in memory before they are saved, and stay changed if that fails.
  abbrev pub save_groups : Driver W → List Group → Result (Unit {0}) × Driver W
  save_groups d groups =
      let db : Database = record { root = some groups } in
      saved_with d db (save d.cfg.file db d.world)

  abbrev pub set_at :
      Driver W → Text → List Group → Result (Text × Text) → Result (Unit {0}) × Driver W
  set_at d value groups (err e) = (err e, d)
  set_at d value groups (ok (ns, key)) = save_groups d (set_secret lib ns key value groups)

  abbrev pub set_in : Text → Text → Driver W → Result (List Group) → Result (Unit {0}) × Driver W
  set_in addr value d (err e) = (err e, d)
  set_in addr value d (ok groups) =
      if d.cfg.read_only
      then (err (wraps read_only), d)
      else set_at d value groups (parse_address addr)

  unfoldable pub set : Text → Text → Action (Driver W) (Unit {0})
  unfolding root
  set addr value d = set_in addr value d (root d)

  abbrev opened_with : Driver W → Database → Result (Unit {0}) × W → Result (Unit {0}) × Driver W
  opened_with d db (err e, w) = (err plain, record d { world = w })
  opened_with d db (ok u, w) = (ok tt, record d { db = some db; world = w })

  abbrev decoded_with : Driver W → Decoded × W → Result (Unit {0}) × Driver W
  decoded_with d (refused, w) = (err (wraps auth), record d { world = w })
  decoded_with d (broken, w) = (err plain, record d { world = w })
  decoded_with d (decoded db, w) = opened_with d db (lib.unlock_entries db w)

  abbrev keyed_with : Driver W → Credentials → Result (Unit {0}) × W → Result (Unit {0}) × Driver W
  keyed_with d creds (err e, w) = (err plain, record d { world = w })
  keyed_with d creds (ok u, w) = decoded_with d (lib.decode d.cfg.file creds w)

  abbrev credentials_with : Driver W → W → Result Credentials → Result (Unit {0}) × Driver W
  credentials_with d w (err e) = (err e, record d { world = w })
  credentials_with d w (ok creds) = keyed_with d creds (lib.key_data creds w)

  abbrev file_opened : Driver W → Answers → Result (Unit {0}) × W → Result (Unit {0}) × Driver W
  file_opened d answers (err e, w) = (err plain, record d { world = w })
  file_opened d answers (ok u, w) = credentials_with d w (db_credentials d.cfg answers)

  unfoldable pub unlock : Answers → Action (Driver W) (Unit {0})
  unfolding db_credentials
  unlock answers d =
      if not d.configured
      then (err (wraps not_configured), d)
      else file_opened d answers (lib.open_file d.cfg.file d.world)

  -- Init, once the path is free and the credentials are there: the file is created, which fails if
  -- it exists by then, and closed by a deferred call, whose error is dropped.
  abbrev empty_database : Database
  empty_database = record { root = some [] }

  abbrev then_close : Text → Action W (Unit {0}) → Action W (Unit {0})
  then_close file m w = let (r, w') = m w in (r, (lib.close file w').1)

  abbrev write_new : Text → Action W (Unit {0})
  write_new file = step (lib.make_dir_of file) >>= λ _. step (lib.create_file file) >>= λ _.
      then_close file
        (step (lib.lock_entries empty_database) >>= λ _. step (lib.encode file empty_database))

  abbrev init_credentials_with : Driver W → Result Credentials → Action W (Unit {0})
  init_credentials_with d (err e) w = (err e, w)
  init_credentials_with d (ok creds) w = (step (lib.key_data creds) >>= λ _. write_new d.cfg.file) w

  abbrev init_at : Driver W → Answers → Stat × W → Result (Unit {0}) × W
  init_at d answers (present, w) = (err plain, w)
  init_at d answers (unknown, w) = (err plain, w)
  init_at d answers (no_file, w) = init_credentials_with d (db_credentials d.cfg answers) w

  abbrev put_world : Driver W → Result (Unit {0}) × W → Result (Unit {0}) × Driver W
  put_world d (r, w) = (r, record d { world = w })

  unfoldable pub init : Answers → Action (Driver W) (Unit {0})
  unfolding db_credentials
  init answers d =
      if not d.configured
      then (err (wraps not_configured), d)
      else put_world d (init_at d answers (lib.stat d.cfg.file d.world))

  abbrev pub initializer : Initializer (Driver W)
  initializer = record { init_credentials = Keepass.init_credentials; init = init }

  abbrev pub keepass : VaultDriver (Result KeepassConfig) (Driver W)
  keepass = record {
    configure = Keepass.configure;
    credentials = Keepass.credentials;
    unlock = unlock;
    capabilities = Keepass.capabilities;
    get = Keepass.get lib;
    set = set;
    list = Keepass.list lib;
    lock = Keepass.lock;
    initializer = some initializer;
  }
