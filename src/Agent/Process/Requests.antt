-- ===== src/Agent/Process/Requests.antt =====
-- What a request does to the timer and to the end of an agent.
use go_flexconf.Agent.Process.{
  Process, Timed, connects, requests, drops, elapses, signals, returns, one_request, sent, unsent,
  has_connection,
}
use go_flexconf.Agent.Server.{
  Server, serve_request, handle, handle_op, handle_unlock, handle_get, handle_set, handle_list,
  handle_status, handle_lock, stop_after, reset_idle, shutdown,
}
use go_flexconf.Agent.Wire.{Request, Response}
use go_flexconf.Driver.{VaultDriver}
use go_flexconf.Text.{text, text_eq}
use go_flexconf.Base.{
  arith, true, ℕ, ◌∙◌, ◌≡◌, ◌⊎◌, Bool, Bool-cases, if◌then◌else◌, inl, inr, not, refl,
}

-- What does not move the deadline.
abbrev pub Quiet : Timed → Type 0
Quiet (now, requests c req writes) = text_eq req.op (text "status") ≡ true
Quiet (now, connects c peer) = Unit
Quiet (now, drops c) = Unit
Quiet (now, elapses) = Unit
Quiet (now, signals) = Unit
Quiet (now, returns) = Unit

-- The timer runs towards the deadline, or the agent is stopping already.
abbrev pub Bounded : {D : Type 0} → ℕ → Process D → Type 0
Bounded deadline p =
    (p.server.stopped ≡ true) ⊎ ((p.server.armed ≡ true) × (p.server.deadline ≡ deadline))

abbrev pub Stopped : {D : Type 0} → Process D → Type 0
Stopped p = p.server.stopped ≡ true

-- No field of the timer changes.
abbrev SameTimer : {D : Type 0} → Server D → Server D → Type 0
SameTimer s t = (t.deadline ≡ s.deadline) × (t.armed ≡ s.armed) × (t.stopped ≡ s.stopped)

module _ {C D : Type 0} (drv : VaultDriver C D) (uid : ℕ) where
  handle_op-SameTimer :
      (now : ℕ) (req : Request) (s : Server D) → SameTimer s (handle_op drv now req s).1
  unfolding handle_op handle_unlock handle_get handle_set handle_list handle_status handle_lock
  handle_op-SameTimer now req s = ground arith

  handle_status-SameTimer :
      (now : ℕ) (req : Request) (s : Server D)
      → text_eq req.op (text "status") ≡ true
      → SameTimer s (handle drv now req s).1
  unfolding handle
  handle_status-SameTimer now req s q = rw q (handle_op-SameTimer now req s)

  reset_stopped :
      (now : ℕ) (status : Bool) (s : Server D)
      → s.stopped ≡ true
      → (if not status then reset_idle now s else s).stopped ≡ true
  unfolding reset_idle
  reset_stopped now status s h = ground arith

  handle-stopped :
      (now : ℕ) (req : Request) (s : Server D)
      → s.stopped ≡ true
      → (handle drv now req s).1.stopped ≡ true
  unfolding handle reset_idle
  handle-stopped now req s h =
      (handle_op-SameTimer now req _).2 ∙ reset_stopped now (text_eq req.op (text "status")) s h

  stop_after-Stopped :
      (req : Request) (r : Response × Server D)
      → r.1.stopped ≡ true
      → (stop_after drv req r).1.stopped ≡ true
  unfolding shutdown
  stop_after-Stopped req (resp, s) h = ground arith

  stop_after-Timer :
      (req : Request) (r : Response × Server D) (deadline : ℕ)
      → r.1.armed ≡ true
      → r.1.deadline ≡ deadline
      → ((stop_after drv req r).1.armed ≡ true) × ((stop_after drv req r).1.deadline ≡ deadline)
  unfolding shutdown
  stop_after-Timer req (resp, s) deadline a d = ground arith

  sent-server :
      (c : ℕ) (req : Request) (p : Process D) (r : Response × Server D)
      → (sent drv uid c req p r).server ≡ r.1
  sent-server c req p (resp, s) = refl

  unsent-server :
      (c : ℕ) (p : Process D) (r : Response × Server D) → (unsent drv uid c p r).server ≡ r.1
  unsent-server c p (resp, s) = refl

  pub one_request-Stopped :
      (now c : ℕ) (req : Request) (writes : Bool) (p : Process D)
      → Stopped p
      → Stopped (one_request drv uid now c req writes p)
  unfolding serve_request
  one_request-Stopped now c req writes p h = elim (Bool-cases (has_connection c p.connections)) [
    | inr unknown ↦ rw unknown h
    | inl known ↦ elim (Bool-cases writes) [
      | inl sends ↦
          rw (known, sends)
            (stop_after-Stopped req (handle drv now req p.server)
              (handle-stopped now req p.server h))
      | inr fails ↦ rw (known, fails) (handle-stopped now req p.server h)
    ]
  ]

  pub one_request-exited :
      (now c : ℕ) (req : Request) (writes : Bool) (p : Process D)
      → (one_request drv uid now c req writes p).exited ≡ p.exited
  one_request-exited now c req writes p = elim (Bool-cases (has_connection c p.connections)) [
    | inr unknown ↦ rw unknown refl
    | inl known ↦ elim (Bool-cases writes) [
      | inl sends ↦ rw (known, sends) refl
      | inr fails ↦ rw (known, fails) refl
    ]
  ]

  pub one_request-Bounded :
      (now c : ℕ) (req : Request) (writes : Bool) (p : Process D) (deadline : ℕ)
      → text_eq req.op (text "status") ≡ true
      → p.server.armed ≡ true
      → p.server.deadline ≡ deadline
      → Bounded deadline (one_request drv uid now c req writes p)
  unfolding serve_request
  one_request-Bounded now c req writes p deadline q a d =
      let (same_deadline, same_armed, same_stopped) = handle_status-SameTimer now req p.server q in
      let armed = same_armed ∙ a in
      let due = same_deadline ∙ d in
      elim (Bool-cases (has_connection c p.connections)) [
        | inr unknown ↦ rw unknown (inr (a, d))
        | inl known ↦ elim (Bool-cases writes) [
          | inl sends ↦
              rw (known, sends)
                (inr (stop_after-Timer req (handle drv now req p.server) deadline armed due))
          | inr fails ↦ rw (known, fails) (inr (armed, due))
        ]
      ]
