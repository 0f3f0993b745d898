-- ===== src/Agent/Server/Idle.antt =====
-- What a request does to the idle timer, and what it leaves of the credentials.
use go_flexconf.Driver.{VaultDriver}
use go_flexconf.Agent.Server.{
  Server, serve_request, handle_get, handle_list, handle_lock, handle_op, handle_set, handle_status,
  handle_unlock, stop_after, reset_idle, shutdown, handle,
}
use go_flexconf.Base.{
  Bool, arith, if◌then◌else◌, none, some, ℕ, ◌+◌, ◌≡◌, Bool-cases, inl, inr, ◌∙◌, false, true,
}
use go_flexconf.Agent.Wire.{Request, Response}
use go_flexconf.Text.{text, text_eq}

abbrev is_status : Request → Bool
is_status req = text_eq req.op (text "status")

-- The deadline that a request leaves.
abbrev pub deadline_after : {D : Type 0} → ℕ → Request → Server D → ℕ
deadline_after now req s = elim s.idle [
  | none ↦ s.deadline
  | some idle ↦ if text_eq req.op (text "status") then s.deadline else now + idle
]

-- The timer's fields are as in the first state.
abbrev SameTimer : {D : Type 0} → Server D → Server D → Type 0
SameTimer s t = (t.deadline ≡ s.deadline) × (t.idle ≡ s.idle)

module _ {C D : Type 0} (drv : VaultDriver C D) where
  handle_op-SameTimer :
      (now : ℕ) (req : Request) (s : Server D) → SameTimer s (handle_op drv now req s).1
  unfolding handle_op handle_unlock handle_get handle_set handle_list handle_status handle_lock
  handle_op-SameTimer now req s = ground arith

  stop_after-SameTimer :
      (req : Request) (r : Response × Server D) → SameTimer r.1 (stop_after drv req r).1
  unfolding shutdown
  stop_after-SameTimer req (resp, s) = ground arith

  status-deadline :
      (now : ℕ) (req : Request) (s : Server D)
      → is_status req ≡ true
      → s.deadline ≡ deadline_after now req s
  status-deadline now req s e = ground arith

  reset_idle-deadline :
      (now : ℕ) (req : Request) (s : Server D)
      → is_status req ≡ false
      → (reset_idle now s).deadline ≡ deadline_after now req s
  unfolding reset_idle
  reset_idle-deadline now req s e = ground arith

  -- Every request but `status` moves the deadline to the idle duration from now; `status` leaves
  -- it, and with a negative duration no request moves it.
  pub serve_request-deadline :
      (now : ℕ) (req : Request) (s : Server D)
      → (serve_request drv now req s).1.deadline ≡ deadline_after now req s
  unfolding serve_request handle
  serve_request-deadline now req s =
      (stop_after-SameTimer req (handle drv now req s)).0 ∙ elim (Bool-cases (is_status req)) [
        | inl status ↦
            rw status (((handle_op-SameTimer now req s).0 ∙ status-deadline now req s status))
        | inr other ↦ rw other (
            (handle_op-SameTimer now req (reset_idle now s)).0
            ∙ reset_idle-deadline now req s other)
      ]
