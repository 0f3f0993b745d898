-- ===== src/Agent/Process/Stopping.antt =====
-- An agent with an idle duration stops, and what it leaves.
use go_flexconf.Agent.Process.{
  Process, Event, Timed, connects, requests, drops, elapses, signals, returns, step, run, live_step,
  exit_with, peer_matches,
}
use go_flexconf.Agent.Server.{Server, shutdown, tick, cleanup}
use go_flexconf.Driver.{VaultDriver}
use go_flexconf.Manager
use go_flexconf.Base.{
  arith, false, true, ℕ, ◌∙◌, ◌≡◌, ◌⊎◌, inl, inr, not, refl, All, List, [], leb, ◌++◌, ◌∷◌, ◌≤◌,
  ◌&&◌, both_taken, else_taken, then_taken,
}
use go_flexconf.Manager.{Manager}
use go_flexconf.Agent.Proxy.Transparent.{after}
use go_flexconf.Agent.Process.Requests.{
  Bounded, Quiet, Stopped, one_request-Bounded, one_request-Stopped, one_request-exited,
}

-- The process is gone, its socket is removed and its Manager locked.
pub record Gone {D : Type 0} (p : Process D) : Type 0 where
  pub exited : p.exited ≡ true
  pub unbound : p.bound ≡ false
  pub locked : p.server.manager.unlocked ≡ false

module _ {C D : Type 0} (drv : VaultDriver C D) (uid : ℕ) where
  exit_with-Gone : (p : Process D) → Gone (exit_with drv uid p)
  unfolding cleanup Manager.lock
  exit_with-Gone p = record { exited = refl; unbound = refl; locked = refl }

  -- The process is about to return from its loop, or gone.
  abbrev Ending : Process D → Type 0
  Ending p = (Stopped p × (p.exited ≡ false)) ⊎ Gone p

  -- The process waits for the deadline at most, or is gone.
  abbrev Waiting : ℕ → Process D → Type 0
  Waiting deadline p = (Bounded deadline p × (p.exited ≡ false)) ⊎ Gone p

  step-Gone : (e : Timed) (p : Process D) → Gone p → Gone (step drv uid e p)
  unfolding step
  step-Gone (now, e) p g = then_taken Gone p.exited p (live_step drv uid now e p) g.exited g

  live_step-Ending :
      (now : ℕ) (e : Event) (p : Process D)
      → Stopped p
      → p.exited ≡ false
      → Ending (live_step drv uid now e p)
  unfolding tick shutdown
  live_step-Ending now (connects c peer) p h x =
      both_taken Ending (not p.server.stopped && peer_matches uid peer)
        (record p { connections = c ∷ p.connections }) p (inl (h, x)) (inl (h, x))
  live_step-Ending now (requests c req writes) p h x = inl (
    one_request-Stopped drv uid now c req writes p h,
    one_request-exited drv uid now c req writes p ∙ x,
  )
  live_step-Ending now (drops c) p h x = inl (h, x)
  live_step-Ending now elapses p h x = inl (ground arith, x)
  live_step-Ending now signals p h x = inl (refl, x)
  live_step-Ending now returns p h x =
      then_taken Ending p.server.stopped (exit_with drv uid p) p h (inr (exit_with-Gone p))

  step-Ending : (e : Timed) (p : Process D) → Ending p → Ending (step drv uid e p)
  unfolding step
  step-Ending (now, e) p (inl (h, x)) =
      else_taken Ending p.exited p (live_step drv uid now e p) x (live_step-Ending now e p h x)
  step-Ending (now, e) p (inr g) = inr (step-Gone (now, e) p g)

  live_step-Waiting :
      (now : ℕ) (e : Event) (p : Process D) (deadline : ℕ)
      → Quiet (now, e)
      → p.server.armed ≡ true
      → p.server.deadline ≡ deadline
      → p.exited ≡ false
      → Waiting deadline (live_step drv uid now e p)
  unfolding tick shutdown
  live_step-Waiting now (connects c peer) p deadline q a d x =
      both_taken (Waiting deadline) (not p.server.stopped && peer_matches uid peer)
        (record p { connections = c ∷ p.connections }) p (inl (inr (a, d), x)) (inl (inr (a, d), x))
  live_step-Waiting now (requests c req writes) p deadline q a d x = inl (
    one_request-Bounded drv uid now c req writes p deadline q a d,
    one_request-exited drv uid now c req writes p ∙ x,
  )
  live_step-Waiting now (drops c) p deadline q a d x = inl (inr (a, d), x)
  live_step-Waiting now elapses p deadline q a d x =
      let timer : Server D → Type 0 =
        λ s. (s.stopped ≡ true) ⊎ ((s.armed ≡ true) × (s.deadline ≡ deadline)) in
      inl (
        both_taken timer (p.server.armed && leb p.server.deadline now)
            (record p.server { stopped = true }) p.server (inl refl) (inr (a, d)),
        x,
      )
  live_step-Waiting now signals p deadline q a d x = inl (inl refl, x)
  live_step-Waiting now returns p deadline q a d x =
      both_taken (Waiting deadline) p.server.stopped (exit_with drv uid p) p
        (inr (exit_with-Gone p)) (inl (inr (a, d), x))

  Ending-Waiting : (deadline : ℕ) (p : Process D) → Ending p → Waiting deadline p
  Ending-Waiting deadline p (inl (h, x)) = inl (inl h, x)
  Ending-Waiting deadline p (inr g) = inr g

  step-Waiting :
      (e : Timed) (p : Process D) (deadline : ℕ)
      → Quiet e
      → Waiting deadline p
      → Waiting deadline (step drv uid e p)
  unfolding step
  step-Waiting (now, e) p deadline q (inl (inl h, x)) =
      Ending-Waiting deadline _ (step-Ending (now, e) p (inl (h, x)))
  step-Waiting (now, e) p deadline q (inl (inr (a, d), x)) =
      else_taken (Waiting deadline) p.exited p (live_step drv uid now e p) x
        (live_step-Waiting now e p deadline q a d x)
  step-Waiting (now, e) p deadline q (inr g) = inr (step-Gone (now, e) p g)

  elapsed-Ending :
      (now : ℕ) (p : Process D) (deadline : ℕ)
      → deadline ≤ now
      → Waiting deadline p
      → Ending (step drv uid (now, elapses) p)
  unfolding step tick shutdown
  elapsed-Ending now p deadline late (inl (inl h, x)) = step-Ending (now, elapses) p (inl (h, x))
  elapsed-Ending now p deadline late (inl (inr (a, d), x)) =
      let due : (p.server.armed && leb p.server.deadline now) ≡ true = ground (arith, a, d, late) in
      else_taken Ending p.exited p (live_step drv uid now elapses p) x (
        inl (
          then_taken (λ (s : Server D). s.stopped ≡ true) _ (shutdown p.server) p.server due refl,
          x,
        ))
  elapsed-Ending now p deadline late (inr g) = inr (step-Gone (now, elapses) p g)

  returned-Gone : (now : ℕ) (p : Process D) → Ending p → Gone (step drv uid (now, returns) p)
  unfolding step
  returned-Gone now p (inl (h, x)) =
      else_taken Gone p.exited p (live_step drv uid now returns p) x
        (then_taken Gone p.server.stopped (exit_with drv uid p) p h (exit_with-Gone p))
  returned-Gone now p (inr g) = step-Gone (now, returns) p g

  run-Gone : (es : List Timed) (p : Process D) → Gone p → Gone (run drv uid es p)
  unfolding run
  run-Gone [] p g = g
  run-Gone (e ∷ es) p g = run-Gone es (step drv uid e p) (step-Gone e p g)

  run-Ending : (es : List Timed) (p : Process D) → Ending p → Ending (run drv uid es p)
  unfolding run
  run-Ending [] p h = h
  run-Ending (e ∷ es) p h = run-Ending es (step drv uid e p) (step-Ending e p h)

  run-Waiting :
      (es : List Timed) (p : Process D) (deadline : ℕ)
      → All Quiet es
      → Waiting deadline p
      → Waiting deadline (run drv uid es p)
  unfolding run
  run-Waiting [] p deadline q h = h
  run-Waiting (e ∷ es) p deadline q h =
      run-Waiting es (step drv uid e p) deadline q.1 (step-Waiting e p deadline q.0 h)

  run-append :
      (es fs : List Timed) (p : Process D)
      → run drv uid (es ++ fs) p ≡ run drv uid fs (run drv uid es p)
  unfolding run
  run-append [] fs p = refl
  run-append (e ∷ es) fs p = run-append es fs (step drv uid e p)

  -- An agent whose timer is armed, to which no request but `status` comes until the timer fires at
  -- the deadline or later, is gone once its accept loop returns after that, whatever happens in
  -- between and later, requests included: the process has exited, its socket is removed and its
  -- Manager is locked.
  pub idle_agent-Gone :
      (before between after : List Timed) (now later : ℕ) (p : Process D)
      → p.exited ≡ false
      → p.server.armed ≡ true
      → All Quiet before
      → p.server.deadline ≤ now
      → Gone (run drv uid (before ++ ((now, elapses) ∷ (between ++ ((later, returns) ∷ after)))) p)
  unfolding run
  idle_agent-Gone before between after now later p x a quiet late =
      let waiting = run-Waiting before p p.server.deadline quiet (inl (inr (a, refl), x)) in
      let due = elapsed-Ending now (run drv uid before p) p.server.deadline late waiting in
      let ending = run-Ending between _ due in
      rw (run-append, run-append) (run-Gone after _ (returned-Gone later _ ending))
