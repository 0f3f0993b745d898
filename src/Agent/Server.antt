-- ===== src/Agent/Server.antt =====
-- internal/agent/server.go: the request handler over a Manager, the idle timer and the connection
-- loop. Times are milliseconds from the zero time of the clock; `idle` is `none` for a negative
-- duration, and `now` is what time.Now() returns. The prompter's world is the replay prompter's
-- `answers` field. The locks make each request one step.
pub mod Idle
pub mod Answering
use go_flexconf.Manager
use go_flexconf.Manager.{Manager, is_unlocked}
use go_flexconf.Driver.{VaultDriver}
use go_flexconf.Agent.Wire.{Request, Response, empty_response, error_code}
use go_flexconf.Prompt.{Answers, PromptRequest, replay_dispatch}
use go_flexconf.Base.{
  Bool, List, Option, [], code, if◌then◌else◌, leb, none, not, some, true, ℕ, ◌&&◌, ◌+◌,
}
use go_flexconf.Errors.{Error, Result, err, ok}
use go_flexconf.Text.{Text, text, text_eq}
use go_flexconf.Base.Int.{sub_ℕ}

pub record Server (D : Type 0) : Type 0 where
  pub vault_id : Text
  pub manager : Manager D
  pub replay : Answers
  pub idle : Option ℕ
  pub deadline : ℕ
  pub armed : Bool
  pub stopped : Bool

-- Serve and serveManager: the state in which the accept loop begins.
abbrev pub retries : ℕ
retries = 1

-- replayPrompter.Dispatch, as the prompter of the agent's Manager.
abbrev pub replay_prompter : List PromptRequest → Answers → Result Answers × Answers
replay_prompter reqs answers = (replay_dispatch answers reqs, answers)

-- replayPrompter.set and clear, on the answers that it holds; clear also wipes the map that was set.
abbrev pub replay_set : Answers → Answers → Answers
replay_set answers held = answers

abbrev pub replay_clear : Answers → Answers
replay_clear held = []

abbrev restart : {D : Type 0} → Option ℕ → ℕ → Server D → Server D
restart none now s = s
restart (some idle) now s = record s { deadline = now + idle; armed = true }

unfoldable pub reset_idle : {D : Type 0} → ℕ → Server D → Server D
reset_idle now s = restart s.idle now s

unfoldable pub shutdown : {D : Type 0} → Server D → Server D
shutdown s = record s { stopped = true }

-- The timer that `resetIdle` armed, at time `now`.
unfoldable pub tick : {D : Type 0} → ℕ → Server D → Server D
unfolding shutdown
tick now s = if s.armed && leb s.deadline now then shutdown s else s

abbrev pub err_response : Error → Response
err_response e = record empty_response { code = error_code e }

abbrev pub ok_response : Response
ok_response = record empty_response { accepted = true }

module _ {C D : Type 0} (drv : VaultDriver C D) where
  abbrev pub unit_response : Result (Unit {0}) → Response
  unit_response (ok u) = ok_response
  unit_response (err e) = err_response e

  abbrev pub value_response : Result Text → Response
  value_response (ok v) = record ok_response { value = v }
  value_response (err e) = err_response e

  abbrev pub list_response : Result (List Text) → Response
  list_response (ok names) = record ok_response { list = names }
  list_response (err e) = err_response e

  -- unlockWith: the answers are wiped, whatever the outcome.
  abbrev unlocked_with : Server D → Result (Unit {0}) × (Manager D × Answers) → Response × Server D
  unlocked_with s (r, (m, answers)) =
      (unit_response r, record s { manager = m; replay = replay_clear answers })

  unfoldable pub handle_unlock : Request → Server D → Response × Server D
  handle_unlock req s =
      if Manager.is_unlocked drv s.manager
      then (ok_response, s)
      else unlocked_with s
          (Manager.unlock drv replay_prompter (s.manager, replay_set req.answers s.replay))

  unfoldable pub handle_get : Request → Server D → Response × Server D
  handle_get req s =
      let (r, m) = Manager.get drv req.addr s.manager in
      (value_response r, record s { manager = m })

  unfoldable pub handle_set : Request → Server D → Response × Server D
  handle_set req s =
      let (r, m) = Manager.set drv req.addr req.value s.manager in
      (unit_response r, record s { manager = m })

  unfoldable pub handle_list : Request → Server D → Response × Server D
  handle_list req s =
      let (r, m) = Manager.list drv req.namespace s.manager in
      (list_response r, record s { manager = m })

  unfoldable pub handle_status : ℕ → Server D → Response × Server D
  handle_status now s = (
    record {
      accepted = true;
      value = [];
      list = [];
      code = [];
      unlocked = Manager.is_unlocked drv s.manager;
      vault_id = s.vault_id;
      idle_left = sub_ℕ s.deadline now;
      writable = (Manager.capabilities drv s.manager).writable;
    },
    s,
  )

  unfoldable pub handle_lock : Server D → Response × Server D
  handle_lock s =
      let (r, m) = Manager.lock drv s.manager in (unit_response r, record s { manager = m })

  -- The switch on the operation, after the idle timer was reset.
  unfoldable pub handle_op : ℕ → Request → Server D → Response × Server D
  unfolding text_eq
  handle_op now req s =
      if text_eq req.op (text "unlock")
      then handle_unlock req s
      else if text_eq req.op (text "get")
      then handle_get req s
      else if text_eq req.op (text "set")
      then handle_set req s
      else if text_eq req.op (text "list")
      then handle_list req s
      else if text_eq req.op (text "status")
      then handle_status now s
      else if text_eq req.op (text "lock")
      then handle_lock s
      else (empty_response, s)

  unfoldable pub handle : ℕ → Request → Server D → Response × Server D
  unfolding text_eq
  handle now req s =
      handle_op now req (if not (text_eq req.op (text "status")) then reset_idle now s else s)

  -- What handleConn does with one request: a lock that succeeded stops the agent.
  abbrev pub stop_after : Request → Response × Server D → Response × Server D
  stop_after req (resp, s) =
      (resp, if text_eq req.op (text "lock") && resp.accepted then shutdown s else s)

  unfoldable pub serve_request : ℕ → Request → Server D → Response × Server D
  unfolding handle shutdown
  serve_request now req s = stop_after req (handle now req s)

  -- cleanup, for the Manager.
  unfoldable pub cleanup : Server D → Server D
  cleanup s = record s { manager = (Manager.lock drv s.manager).1 }
