-- ===== src/Command/Actions.antt =====
-- flexcli/secret.go: the commands on one vault. A command returns its error; what cobra does with the
-- arguments is outside.
pub mod Serving
pub mod RoundTrip
use go_flexconf.Manager
use go_flexconf.Manager.{Manager, new_manager, default_retries}
use go_flexconf.Command.{
  Shell, Flags, Options, Environment, dial, put_agent, prints, select_vault, unlock_agent,
  with_agent, Selected,
}
use go_flexconf.Agent.Server.{Server}
use go_flexconf.Agent.Client.{
  Status, client_get, client_set, client_list, client_status, client_lock,
}
use go_flexconf.Agent.Wire.{Codec, Request, Response}
use go_flexconf.Driver.{VaultDriver}
use go_flexconf.Driver.Registered.{new_driver}
use go_flexconf.Prompt.{Answers, PromptRequest}
use go_flexconf.Action.{Action}
use go_flexconf.Secret.{Operator}
use go_flexconf.Address.{parse_address}
use go_flexconf.Dict.{lookup, insert}
use go_flexconf.Text.{Text, text}
use go_flexconf.Text.Sorting.{sort_strings}
use go_flexconf.Errors.{Result, ok, err, plain}
use go_flexconf.Vaults.{VaultConf}
use go_flexconf.Base.Int.{ℤ}
use go_flexconf.Base.{Bool, List, Option, [], if◌then◌else◌, none, some, ◌++◌, ◌∷◌}
use go_flexconf.Agent.Proxy.Transparent.{after}

abbrev pub line : Text → Text
line s = s ++ b'\n' ∷ []

abbrev pub flat : List Text → Text
flat [] = []
flat (s ∷ more) = s ++ flat more

abbrev pub lines : List Text → Text
lines [] = []
lines (s ∷ more) = line s ++ lines more

module _ {C D W : Type 0} (drv : VaultDriver C D) (requests : Codec Request)
    (responses : Codec Response) (dispatch : List PromptRequest → Action W Answers)
    (op : Operator C D W) (env : Environment D) (opts : Options) where
  abbrev pub Cmd : Type 0
  Cmd = Action (Shell D W) (Unit {0})

  -- A request over a connection to an agent, and what the command does with the answer.
  abbrev pub served :
      {A : Type 0}
      → Text
      → (A → Shell D W → Shell D W)
      → Shell D W
      → Result A × Server D
      → Result (Unit {0}) × Shell D W
  served id then_do sh (ok a, s) = (ok tt, then_do a (record sh { agents = insert id s sh.agents }))
  served id then_do sh (err e, s) = (err e, record sh { agents = insert id s sh.agents })

  abbrev pub over :
      {A : Type 0} → Text → (Server D → Result A × Server D) → (A → Shell D W → Shell D W) → Cmd
  over id request then_do sh = elim (lookup id sh.agents) [
    | none ↦ (err plain, sh)
    | some s ↦ served id then_do sh (request s)
  ]

  abbrev pub via :
      {A : Type 0}
      → (Server D → Result A × Server D)
      → (A → Shell D W → Shell D W)
      → Result Text × Shell D W
      → Result (Unit {0}) × Shell D W
  via request then_do (err e, sh) = (err e, sh)
  via request then_do (ok id, sh) = over id request then_do sh

  abbrev checked : Result (Text × Text) → Cmd → Cmd
  checked (err e) cmd sh = (err e, sh)
  checked (ok parts) cmd sh = cmd sh

  -- getCmd
  unfoldable pub get_cmd : Bool → Flags → Text → Cmd
  unfolding parse_address with_agent client_get insert lookup
  get_cmd raw flags addr = checked (parse_address addr) λ sh.
      via (client_get drv requests responses env.now addr)
        (λ value. prints (if raw then value else line value))
        (with_agent drv requests responses dispatch op env opts flags sh)

  -- setCmd: all of the input is the value
  abbrev storing : Flags → Text → Text → Cmd
  storing flags addr value sh =
      via (client_set drv requests responses env.now addr value) (λ u. prints (line (text "ok")))
        (with_agent drv requests responses dispatch op env opts flags
          (record sh { input = sh.later; later = [] }))

  unfoldable pub set_cmd : Flags → Text → Cmd
  unfolding parse_address with_agent client_set insert lookup
  set_cmd flags addr =
      checked (parse_address addr)
        λ sh. if sh.broken_input then (err plain, sh) else storing flags addr sh.input sh

  -- listCmd
  unfoldable pub list_cmd : Flags → Text → Cmd
  unfolding with_agent client_list insert lookup sort_strings
  list_cmd flags ns sh =
      via (client_list drv requests responses env.now ns)
        (λ found. prints (lines (sort_strings found)))
        (with_agent drv requests responses dispatch op env opts flags sh)

  -- A command on the vault that is selected.
  abbrev pub on :
      (Text → VaultConf → Text → Cmd)
      → Shell D W
      → Result (Text × (VaultConf × Text))
      → Result (Unit {0}) × Shell D W
  on body sh (err e) = (err e, sh)
  on body sh (ok (name, (conf, id))) = body name conf id sh

  abbrev pub selected : Flags → (Text → VaultConf → Text → Cmd) → Cmd
  selected flags body sh =
      on body sh (select_vault drv requests responses dispatch op env opts flags.vault sh.world)

  -- The commands that ask no agent to be started.
  abbrev pub if_running :
      {A : Type 0}
      → Text
      → (Server D → Result A × Server D)
      → (A → Shell D W → Shell D W)
      → Text
      → Cmd
  if_running id request then_do otherwise sh = elim (dial id sh.agents) [
    | none ↦ (ok tt, prints (line otherwise) sh)
    | some s ↦ served id then_do sh (request s)
  ]

  -- lockCmd
  unfoldable pub lock_cmd : Flags → Cmd
  unfolding select_vault dial client_lock insert
  lock_cmd flags = selected flags λ name conf id.
      if_running id (client_lock drv requests responses env.now)
        (λ u. prints (line (text "locked; agent stopped"))) (text "no agent running")

  -- The line of a status, but for the text of the duration.
  abbrev show_bool : Bool → Text
  show_bool b = if b then text "true" else text "false"

  abbrev status_line : (ℤ → Text) → Status → Text
  status_line duration st = flat (
      (if st.unlocked then text "unlocked" else text "locked")
      ∷ text "  vault-id="
      ∷ st.vault_id
      ∷ text "  idle-remaining="
      ∷ duration st.idle_left
      ∷ text "  writable="
      ∷ show_bool st.writable
      ∷ [])

  -- statusCmd
  unfoldable pub status_cmd : (ℤ → Text) → Flags → Cmd
  unfolding select_vault dial client_status insert
  status_cmd duration flags = selected flags λ name conf id.
      if_running id (client_status drv requests responses env.now)
        (λ st. prints (line (status_line duration st))) (text "locked (no agent running)")

  abbrev pub reported : Text → Result (Unit {0}) × Shell D W → Result (Unit {0}) × Shell D W
  reported message (err e, sh) = (err e, sh)
  reported message (ok u, sh) = (ok tt, prints (line message) sh)

  abbrev unlock_reported : Text → Cmd
  unlock_reported name sh =
      reported (text "unlocked; agent will lock after idle timeout")
        (unlock_agent drv requests responses dispatch op env opts name sh)

  -- unlockCmd; the error of a forced lock is dropped
  abbrev unlock_over :
      Bool → Text → Text → Shell D W → Option (Server D) → Result (Unit {0}) × Shell D W
  unlock_over force name id sh none = unlock_reported name sh
  unlock_over force name id sh (some s) =
      if force
      then unlock_reported name (record sh {
        agents = insert id (client_lock drv requests responses env.now s).1 sh.agents;
      })
      else (ok tt, prints (line (text "already unlocked")) sh)

  unfoldable pub unlock_cmd : Bool → Flags → Cmd
  unfolding select_vault dial client_lock insert unlock_agent
  unlock_cmd force flags =
      selected flags λ name conf id sh. unlock_over force name id sh (dial id sh.agents)

  abbrev created_as :
      Text → Shell D W → Result (Unit {0}) × (Manager D × W) → Result (Unit {0}) × Shell D W
  created_as name sh (r, (m, w)) =
      reported (text "created vault " ++ name) (r, record sh { world = w })

  abbrev creating : Text → VaultConf → Shell D W → Result D → Result (Unit {0}) × Shell D W
  creating name conf sh (err e) = (err e, sh)
  creating name conf sh (ok d) = created_as name sh (
      Manager.create drv dispatch (op.decode conf.config) (new_manager d default_retries, sh.world))

  -- initCmd, but for the quotes around the name
  unfoldable pub init_cmd : Flags → Cmd
  unfolding select_vault new_driver Manager.create
  init_cmd flags =
      selected flags λ name conf id sh. creating name conf sh (new_driver conf.driver op.drivers)
