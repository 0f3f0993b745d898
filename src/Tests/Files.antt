-- ===== src/Tests/Files.antt =====
-- The KeePass driver over the file system in memory.
use go_flexconf.Keepass
use go_flexconf.Keepass.Storage
use go_flexconf.Keepass.{
  Database, Group, Driver, KeepassConfig, get_secret, set_secret, new_entry, root,
}
use go_flexconf.Keepass.Secrets.{get_secret-set_secret}
use go_flexconf.Keepass.Storage.Saving.{save_atomic}
use go_flexconf.Keepass.Storage.Contract.{IsUnlocked, keepass-Honours}
use go_flexconf.Driver.{Honours}
use go_flexconf.Address.{parse_address}
use go_flexconf.Text.{text_eq}
use go_flexconf.Tests.Memory.{
  value_of, index_of, memory, memory-Documented, memory-Atomic, Files, put,
}
use go_flexconf.Dict.{Dict}
use go_flexconf.Errors.{Error, Result, err, ok}
use go_flexconf.Base.{List, [], false, none, refl, some, true, ◌∷◌, ◌≡◌}
use go_flexconf.Text.{Text, text}
use go_flexconf.Keepass.Storage.{keepass, save}

abbrev path : Text
path = text "/v.kdbx"

abbrev groups : List Group
groups =
    record {
      name = text "ops";
      entries = (Keepass.new_entry memory (text "token") (text "old")) ∷ [];
    }
    ∷ []

abbrev stored : Files
stored = put path (some (record { root = some groups })) (λ p. none)

abbrev driver : Driver Files
driver = record {
  cfg = record { file = path; key_file = []; read_only = false };
  configured = true;
  db = none;
  world = stored;
}

abbrev pw : Dict Text
pw = (text "password", text "x") ∷ []

unlock_then_set : (Driver Files → Result Text)
unfolding Storage.unlock Storage.set Keepass.get
unlock_then_set d =
    let d1 = (Storage.unlock memory pw d).1 in
    let d2 = (Storage.set memory (text "ops/token") (text "new") d1).1 in
    (Keepass.get memory (text "ops/token") (Storage.unlock memory pw (Keepass.lock d2).1).1).0

set_survives : unlock_then_set driver ≡ ok (text "new")
unfolding unlock_then_set Keepass.lock parse_address Storage.save set_secret value_of index_of
set_survives = refl

get_secret-set_secret_example :
    get_secret memory
      (text "ops")
      (text "token")
      (set_secret memory (text "ops") (text "token") (text "new") groups)
    ≡ ok (text "new")
unfolding text_eq
get_secret-set_secret_example =
    get_secret-set_secret memory memory-Documented (text "ops") (text "token") (text "new")
      (text "ops") (text "token") groups

save_atomic_example :
    ((Storage.save memory path (record { root = none }) stored).0 ≡ ok tt
      → (Storage.save memory path (record { root = none }) stored).1 path
        ≡ some (record { root = none }))
    × ((e : Error)
        → (Storage.save memory path (record { root = none }) stored).0 ≡ err e
        → (Storage.save memory path (record { root = none }) stored).1 path ≡ stored path)
save_atomic_example = save_atomic memory memory-Atomic path (record { root = none }) stored

keepass-Honours_example : Honours (Storage.keepass memory) IsUnlocked
keepass-Honours_example = keepass-Honours memory
