-- ===== src/Tests/Lifecycle.antt =====
-- A Manager over the KeePass driver and a file in memory; the world counts the prompts.
use go_flexconf.Manager
use go_flexconf.Manager.{Manager, new_manager}
use go_flexconf.Manager.Lifecycle.{here, next, opens, unlocked_is_open}
use go_flexconf.Manager.Unlock.{unlock_prompts}
use go_flexconf.Keepass
use go_flexconf.Keepass.{Driver, KeepassConfig, root}
use go_flexconf.Keepass.Storage
use go_flexconf.Keepass.Storage.Contract.{IsUnlocked, keepass-Honours}
use go_flexconf.Driver.{VaultDriver}
use go_flexconf.Tests.Memory.{memory, Files, put}
use go_flexconf.Prompt.{Answers, PromptRequest}
use go_flexconf.Base.{List, [], arith, false, none, refl, some, true, ℕ, ◌+◌, ◌∷◌, ◌≡◌, ◌≤◌}
use go_flexconf.Errors.{Result, err, ok, plain, wraps, not_found, prompt_cancelled}
use go_flexconf.Keepass.Storage.{keepass}
use go_flexconf.Address.{parse_address}
use go_flexconf.Text.{text}

abbrev config : KeepassConfig
config = record { file = text "/v.kdbx"; key_file = []; read_only = false }

abbrev blank : Driver Files
blank = record {
  cfg = record { file = []; key_file = []; read_only = false };
  configured = false;
  db = none;
  world = put (text "/v.kdbx") (some (record { root = some [] })) (λ p. none);
}

-- A prompter that answers, and one that fails; both count.
abbrev typed : List PromptRequest → ℕ → Result Answers × ℕ
typed reqs n = (ok ((text "password", text "x") ∷ []), n + 1)

abbrev cancelled : List PromptRequest → ℕ → Result Answers × ℕ
cancelled reqs n = (err (wraps prompt_cancelled), n + 1)

abbrev vault : VaultDriver (Result KeepassConfig) (Driver Files)
vault = Storage.keepass memory

abbrev fresh : Manager (Driver Files)
fresh = new_manager blank 3

abbrev ready : Manager (Driver Files)
ready = (Manager.configure vault typed (ok config) fresh).1

abbrev opened : Manager (Driver Files) × ℕ
opened = (Manager.open_vault vault typed (ok config) (fresh, 0)).1

open_then_get :
    ((Manager.open_vault vault typed (ok config) (fresh, 0)).0 ≡ ok tt)
    × (opened.1 ≡ 1)
    × ((Manager.get vault (text "ns/key") opened.0).0 ≡ err (wraps not_found))
    × ((Manager.get vault (text "key") opened.0).0 ≡ err plain)
unfolding Manager.open_vault Manager.get Manager.unlock Keepass.configure Keepass.get Storage.unlock
    parse_address
open_then_get = (refl, refl, refl, refl)

unlocked_is_open_example : (opened.0.configured ≡ true) × IsUnlocked opened.0.driver
unfolding Manager.open_vault Keepass.configure Storage.unlock
unlocked_is_open_example =
    unlocked_is_open vault typed (keepass-Honours memory) blank 3 0
      (next here (opens (ok config) fresh 0)) refl

unlock_prompts_example : (Manager.unlock vault typed (ready, 0)).1.1 ≤ 0 + 3
unfolding Manager.configure Keepass.configure
unlock_prompts_example = unlock_prompts vault typed (λ w. w) (λ reqs w. omega arith) ready 0
