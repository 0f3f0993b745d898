-- ===== src/Agent/Process.antt =====
-- internal/agent/server.go: the process that serves a vault. An event is what one goroutine does in
-- one step: the accept loop takes a connection, a connection's loop reads a request or ends, the timer
-- or a signal fires, the accept loop returns. The outside, which is files, sockets and other processes,
-- gives the events and the outcomes of calls.
pub mod Requests
pub mod Stopping
pub mod Owner
use go_flexconf.Agent.Server
use go_flexconf.Agent.Server.{
  Server, retries, reset_idle, shutdown, tick, cleanup, handle, serve_request, replay_prompter,
}
use go_flexconf.Agent.Wire.{Request, Response}
use go_flexconf.Manager
use go_flexconf.Manager.{Manager, new_manager}
use go_flexconf.Vaults
use go_flexconf.Vaults.{VaultConf}
use go_flexconf.Secret.{Operator, registry_at, build_driver}
use go_flexconf.Driver.{VaultDriver}
use go_flexconf.Prompt.{Answers, PromptRequest}
use go_flexconf.Action.{Action}
use go_flexconf.Text.{Text, text, text_eq}
use go_flexconf.Errors.{Error, Result, ok, err, plain, ◌>>=◌, ◌>>◌}
use go_flexconf.Base.Int.{ℤ, pos, negsuc}
use go_flexconf.Base.{
  Bool, List, Option, [], false, if◌then◌else◌, is_empty, none, not, some, suc, true, zero, ℕ, ◌&&◌,
  ◌++◌, ◌/◌, ◌==◌, ◌||◌, ◌∷◌,
}

abbrev pub default_idle : ℕ
default_idle = 120000

-- A duration of nanoseconds, in milliseconds; a negative one is none.
abbrev pub idle_of : ℤ → Option ℕ
idle_of (pos zero) = some default_idle
idle_of (pos (suc n)) = some (suc n / 1000000)
idle_of (negsuc n) = none

abbrev parsed_idle : Option ℤ → Option ℕ
parsed_idle none = some default_idle
parsed_idle (some d) = idle_of d

-- idleTimeout, over the text of FLEXCONF_IDLE_TIMEOUT
unfoldable pub idle_timeout : (Text → Option ℤ) → Text → Option ℕ
idle_timeout duration s = if not (is_empty s) then parsed_idle (duration s) else some default_idle

-- `connections` are those whose peer was accepted; `replies` are the responses that were sent.
pub record Process (D : Type 0) : Type 0 where
  pub server : Server D
  pub connections : List ℕ
  pub replies : List (ℕ × Response)
  pub bound : Bool
  pub exited : Bool

-- A peer is its user, if the socket tells one. A request comes with whether its response can be sent.
pub data Event : Type 0 where
  connects : ℕ → Option ℕ → Event
  requests : ℕ → Request → Bool → Event
  drops : ℕ → Event
  elapses signals returns : Event

abbrev pub Timed : Type 0
Timed = ℕ × Event

-- peerUIDMatches
abbrev pub peer_matches : ℕ → Option ℕ → Bool
peer_matches uid none = false
peer_matches uid (some peer) = peer == uid

unfoldable pub has_connection : ℕ → List ℕ → Bool
has_connection c [] = false
has_connection c (d ∷ ds) = d == c || has_connection c ds

unfoldable pub without : ℕ → List ℕ → List ℕ
without c [] = []
without c (d ∷ ds) = let rest = without c ds in if d == c then rest else d ∷ rest

abbrev is_lock : Request → Response → Bool
is_lock req resp = text_eq req.op (text "lock") && resp.accepted

module _ {C D : Type 0} (drv : VaultDriver C D) (uid : ℕ) where
  -- One round of handleConn: a response that cannot be sent ends the loop before the check for a lock.
  abbrev pub sent : ℕ → Request → Process D → Response × Server D → Process D
  sent c req p (resp, s) = record p {
    server = s;
    replies = p.replies ++ (c, resp) ∷ [];
    connections = if is_lock req resp then without c p.connections else p.connections;
  }

  abbrev pub unsent : ℕ → Process D → Response × Server D → Process D
  unsent c p (resp, s) = record p { server = s; connections = without c p.connections }

  abbrev pub one_request : ℕ → ℕ → Request → Bool → Process D → Process D
  one_request now c req writes p =
      if has_connection c p.connections
      then if writes
        then sent c req p (serve_request drv now req p.server)
        else unsent c p (handle drv now req p.server)
      else p

  -- cleanup, after which the process exits
  abbrev pub exit_with : Process D → Process D
  exit_with p = record p { server = cleanup drv p.server; bound = false; exited = true }

  -- A step of a process that has not exited.
  abbrev pub live_step : ℕ → Event → Process D → Process D
  live_step now (connects c peer) p =
      if not p.server.stopped && peer_matches uid peer
      then record p { connections = c ∷ p.connections }
      else p
  live_step now (requests c req writes) p = one_request now c req writes p
  live_step now (drops c) p = record p { connections = without c p.connections }
  live_step now elapses p = record p { server = tick now p.server }
  live_step now signals p = record p { server = shutdown p.server }
  live_step now returns p = if p.server.stopped then exit_with p else p

  unfoldable pub step : Timed → Process D → Process D
  unfolding has_connection without serve_request handle cleanup tick shutdown
  step (now, e) p = if p.exited then p else live_step now e p

  unfoldable pub run : List Timed → Process D → Process D
  unfolding step
  run [] p = p
  run (e ∷ es) p = run es (step e p)

-- serveManager up to the accept loop: the socket is stale when nothing answers on it, and then it is
-- removed before it is bound.
abbrev pub serving_state : {D : Type 0} → Text → Option ℕ → Manager D → Server D
serving_state id idle m = record {
  vault_id = id;
  manager = m;
  replay = [];
  idle = idle;
  deadline = 0;
  armed = false;
  stopped = false;
}

unfoldable pub serve_manager :
    {D : Type 0} → Text → Option ℕ → ℕ → Result Text → Bool → Bool → Manager D → Result (Process D)
unfolding reset_idle
serve_manager id idle now (err e) answers binds m = err e
serve_manager id idle now (ok socket) answers binds m =
    if answers
    then err plain
    else if not binds
    then err plain
    else ok (record {
      server = reset_idle now (serving_state id idle m);
      connections = [];
      replies = [];
      bound = true;
      exited = false;
    })

module _ {C D W : Type 0} (drv : VaultDriver C D) (dispatch : List PromptRequest → Action W Answers)
    (op : Operator C D W) where
  abbrev configured : Result (Unit {0}) × Manager D → Result (Manager D)
  configured (ok u, m) = ok m
  configured (err e, m) = err e

  abbrev agent_manager : VaultConf → D → Result (Manager D)
  agent_manager conf d =
      configured
        (Manager.configure drv replay_prompter (op.decode conf.config) (new_manager d retries))

  -- Serve
  unfoldable pub serve :
      Text → Text → Option ℕ → ℕ → Result Text → Bool → Bool → W → Result (Process D)
  unfolding serve_manager build_driver Vaults.load Vaults.resolve Manager.configure
  serve id name idle now socket answers binds w = registry_at drv dispatch op w >>= λ reg.
      Vaults.resolve name reg >>= λ (n, conf). build_driver drv dispatch op conf >>= λ d.
      agent_manager conf d >>= serve_manager id idle now socket answers binds
