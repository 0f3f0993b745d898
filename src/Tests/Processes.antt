-- ===== src/Tests/Processes.antt =====
-- The agent's process and the commands that reach it, over one vault.
use go_flexconf.Agent.Process.{
  Process, Timed, connects, elapses, returns, signals, run, serve_manager, idle_timeout,
  has_connection,
}
use go_flexconf.Agent.Starting.{spawn, agent_path, runtime_dir}
use go_flexconf.Agent.Process
use go_flexconf.Agent.Process.Stopping.{Gone, idle_agent-Gone}
use go_flexconf.Agent.Process.Owner.{FromUser, replies-FromUser}
use go_flexconf.Agent.Server.{Server, serve_request}
use go_flexconf.Agent.Client.Transparent.{Sendable, crossed}
use go_flexconf.Agent.Wire.{Codec, Request, Response, get_request, status_request}
use go_flexconf.Command.{
  Environment, Flags, Options, Shell, select_vault, dial, exit_code, is_yes, with_agent,
}
use go_flexconf.Command.Actions.{get_cmd, unlock_cmd, list_cmd}
use go_flexconf.Command.Actions.Serving.{get_cmd-transparent, unlock_cmd_running, done, shown}
use go_flexconf.Command.Consent.{NoConsent-LockedOut, LockedOut}
use go_flexconf.Manager
use go_flexconf.Manager.{Manager}
use go_flexconf.Tests.Secrets.{toy, counted, operator, ops_conf}
use go_flexconf.Vaults
use go_flexconf.Vaults.{vault_id_of}
use go_flexconf.Address.{parse_address}
use go_flexconf.Errors.{ok, err, plain, Error}
use go_flexconf.Dict.{lookup, Dict}
use go_flexconf.Text.{text, text_eq}
use go_flexconf.Base.{
  All, Bool, List, [], arith, false, inr, none, refl, some, true, ℕ, ◌++◌, ◌∷◌, ◌≡◌,
}
use go_flexconf.Agent.Proxy.Transparent.{after}
use go_flexconf.Base.Int.{pos}
use go_flexconf.Secret.{definition_at}
use go_flexconf.Command.Overriding.{with_agent_overridden}

abbrev closed_manager : Manager Bool
closed_manager = record { driver = false; retries = 1; configured = true; unlocked = false }

abbrev open_manager : Manager Bool
open_manager = record { driver = true; retries = 1; configured = true; unlocked = true }

abbrev agent_with : Manager Bool → Server Bool
agent_with m = record {
  vault_id = text "ops-0";
  manager = m;
  replay = [];
  idle = some 1000;
  deadline = 1000;
  armed = true;
  stopped = false;
}

abbrev started : Process Bool
started = record {
  server = agent_with open_manager;
  connections = [];
  replies = [];
  bound = true;
  exited = false;
}

abbrev asks_status : Timed
asks_status = (600, Process.requests 1 status_request true)

abbrev asks_secret : Timed
asks_secret = (1200, Process.requests 1 (get_request (text "a/b")) true)

-- A connection of the user, a status before the deadline, and a request while the agent stops.
idle_agent-Gone_example : Gone (
    run toy 7
      (((10, connects 1 (some 7)) ∷ asks_status ∷ [])
        ++ ((1000, elapses) ∷ ((asks_secret ∷ []) ++ ((1300, returns) ∷ []))))
      started)
unfolding text_eq
idle_agent-Gone_example =
    idle_agent-Gone toy 7 ((10, connects 1 (some 7)) ∷ asks_status ∷ []) (asks_secret ∷ []) [] 1000
      1300 started refl refl (tt, (refl, tt)) (omega arith)

abbrev peers : List Timed
peers = (10, connects 1 (some 7)) ∷ (11, connects 2 (some 8)) ∷ asks_status ∷ []

replies-FromUser_example :
    All (λ (r : ℕ × Response). FromUser 7 peers r.0) (run toy 7 peers started).replies
replies-FromUser_example = replies-FromUser toy 7 peers started refl refl

-- The connection of another user is not answered.
foreign_silent :
    ((run toy 7
        ((10, connects 2 (some 8)) ∷ (11, Process.requests 2 status_request true) ∷ [])
        started).replies
      ≡ [])
    × ((run toy 7 ((10, signals) ∷ (11, returns) ∷ []) started).exited ≡ true)
    × (spawn (ok []) (ok tt) true true [] ≡ (ok tt, false))
    × ((spawn (ok []) (ok tt) false true []).0 ≡ err plain)
    × (idle_timeout (λ s. none) [] ≡ some 120000)
    × (agent_path
          (λ a b. a ++ text "/" ++ b)
          (text "ops")
          (text "sock")
          (runtime_dir (λ k. []) (λ a b. a ++ text "/" ++ b) (text "/tmp") (text "7") (λ d. true))
        ≡ ok (text "/tmp/flexconf-7/agent-ops.sock"))
unfolding run spawn idle_timeout agent_path runtime_dir Process.has_connection
foreign_silent = (refl, refl, refl, refl, refl, refl)

abbrev one_message : {A : Type 0} → A → Codec A
one_message a = record { marshal = λ x. ok (1 ∷ []); unmarshal = λ b. ok a }

abbrev sendable_one : {A : Type 0} (a : A) → Sendable (one_message a) a
sendable_one a = record { payload = 1 ∷ []; marshals = refl; unmarshals = refl; fits = omega arith }

abbrev outside : Environment Bool
outside = record {
  vault = [];
  digest = λ config. text "0";
  is_terminal = true;
  scan = λ s. (s, []);
  spawn = λ id name. ok (agent_with closed_manager);
  now = 5;
}

abbrev defaults : Options
defaults = record { default_vault = []; vault_id = []; idle_timeout = pos 0 }

abbrev no_flags : Flags
no_flags = record { vault = []; no_unlock = false; force_unlock = false }

abbrev shell : Dict (Server Bool) → Shell Bool ℕ
shell agents = record {
  input = text "n";
  later = [];
  broken_input = false;
  output = [];
  messages = [];
  agents = agents;
  world = 0;
}

abbrev ask : Codec Request
ask = one_message (get_request (text "a/b"))

abbrev reply_of : Server Bool → Codec Response
reply_of s = one_message (serve_request toy 5 (get_request (text "a/b")) s).0

ops_selected :
    (responses : Codec Response)
    → select_vault toy ask responses counted operator outside defaults [] 0
      ≡ ok (text "ops", (ops_conf, text "ops-0"))
unfolding select_vault Vaults.load Vaults.resolve vault_id_of
ops_selected responses = refl

address_ab : parse_address (text "a/b") ≡ ok (text "a", text "b")
unfolding parse_address
address_ab = refl

runs :
    (m : Manager Bool)
    → dial (text "ops-0") ((text "ops-0", agent_with m) ∷ []) ≡ some (agent_with m)
unfolding dial lookup
runs m = refl

none_runs : dial {D = Bool} (text "ops-0") [] ≡ none
unfolding dial lookup
none_runs = refl

abbrev open_reply : Codec Response
open_reply = reply_of (agent_with open_manager)

abbrev with_open : Shell Bool ℕ
with_open = shell ((text "ops-0", agent_with open_manager) ∷ [])

get_cmd-transparent_example :
    let (r, after) =
      get_cmd toy ask open_reply counted operator outside defaults true no_flags
        (text "a/b")
        with_open in
    (r ≡ done (crossed (Manager.get toy (text "a/b") open_manager).0))
    × (after.output ≡ [] ++ shown true (crossed (Manager.get toy (text "a/b") open_manager).0))
    × (after.world ≡ 0)
get_cmd-transparent_example =
    get_cmd-transparent toy ask open_reply counted operator outside defaults true no_flags with_open
      (text "ops") ops_conf (text "ops-0") (agent_with open_manager) (text "a/b")
      (ops_selected open_reply) (runs open_manager) address_ab
      (sendable_one (get_request (text "a/b")))
      (sendable_one (serve_request toy 5 (get_request (text "a/b")) (agent_with open_manager)).0)

abbrev closed_reply : Codec Response
closed_reply = reply_of (agent_with closed_manager)

abbrev with_closed : Shell Bool ℕ
with_closed = shell ((text "ops-0", agent_with closed_manager) ∷ [])

unlock_cmd_running_example :
    let (r, after) =
      unlock_cmd toy ask closed_reply counted operator outside defaults false no_flags
        with_closed in
    (r ≡ ok tt)
    × (after.agents ≡ with_closed.agents)
    × (exit_code
          (get_cmd toy ask closed_reply counted operator outside defaults true no_flags
            (text "a/b")
            after).0
        ≡ 3)
unlock_cmd_running_example =
    unlock_cmd_running toy ask closed_reply counted operator outside defaults true no_flags
      with_closed (text "ops") ops_conf (text "ops-0") (agent_with closed_manager) (text "a/b")
      (ops_selected closed_reply) (runs closed_manager) refl refl address_ab
      (sendable_one (get_request (text "a/b")))
      (sendable_one (serve_request toy 5 (get_request (text "a/b")) (agent_with closed_manager)).0)

answered_no : is_yes (text "n") ≡ false
unfolding text_eq
answered_no = refl

NoConsent-LockedOut_example :
    LockedOut (shell []) (
      get_cmd toy ask closed_reply counted operator outside defaults true no_flags
        (text "a/b")
        (shell []))
    × LockedOut
        (shell [])
        (list_cmd toy ask closed_reply counted operator outside defaults no_flags [] (shell []))
NoConsent-LockedOut_example =
    NoConsent-LockedOut toy ask closed_reply counted operator outside defaults true no_flags
      (shell []) (text "ops") ops_conf (text "ops-0") (text "a/b") [] (ops_selected closed_reply)
      none_runs refl (inr (inr answered_no)) address_ab

abbrev pinned : Options
pinned = record defaults { vault_id = text "mine" }

abbrev forced : Flags
forced = record no_flags { force_unlock = true }

pinned_selected :
    select_vault toy ask open_reply counted operator outside pinned [] 0
    ≡ ok (text "ops", (ops_conf, text "mine"))
unfolding select_vault Vaults.load Vaults.resolve
pinned_selected = refl

ops_defined : definition_at toy counted operator 0 (text "ops") ≡ ok (text "ops", ops_conf)
unfolding Vaults.load Vaults.resolve
ops_defined = refl

apart_ids : text_eq (vault_id_of outside.digest (text "ops") ops_conf) (text "mine") ≡ false
unfolding vault_id_of text_eq
apart_ids = refl

none_mine : dial {D = Bool} (text "mine") [] ≡ none
unfolding dial lookup
none_mine = refl

with_agent_overridden_example :
    (e : Error) × ((with_agent toy ask open_reply counted operator outside pinned forced
        (shell [])).0
      ≡ err e)
with_agent_overridden_example =
    with_agent_overridden toy ask open_reply counted operator outside pinned forced (shell [])
      (text "ops") (text "ops") (text "mine") ops_conf ops_conf pinned_selected ops_defined
      apart_ids none_mine
