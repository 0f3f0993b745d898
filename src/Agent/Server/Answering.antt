-- ===== src/Agent/Server/Answering.antt =====
-- How the agent unlocks: with the answers that were forwarded, once, and without keeping them.
use go_flexconf.Manager
use go_flexconf.Driver.{VaultDriver}
use go_flexconf.Agent.Server.{
  Server, serve_request, handle_get, handle_list, handle_lock, handle_op, handle_set, handle_status,
  handle_unlock, reset_idle, retries, shutdown, handle, stop_after, replay_prompter, unlocked_with,
}
use go_flexconf.Prompt.{Answers, collect, replay_dispatch}
use go_flexconf.Base.{Option, [], arith, false, true, ℕ, ◌↔◌, ◌≡◌, Bool-cases, inl, inr, refl, ap}
use go_flexconf.Agent.Wire.{Request, Response, unlock_request}
use go_flexconf.Text.{Text, text, text_eq}
use go_flexconf.Errors.{ok, Result, err}
use go_flexconf.Manager.{Manager, unlock_loop, is_auth, unlocked_by}
use go_flexconf.Prompt.Laws.{replay_collected}
use go_flexconf.Manager.Unlock.{unlock_once}

module _ {C D : Type 0} (drv : VaultDriver C D) where
  handle_op-replay :
      (now : ℕ) (req : Request) (s : Server D)
      → s.replay ≡ []
      → (handle_op drv now req s).1.replay ≡ []
  unfolding handle_op handle_unlock handle_get handle_set handle_list handle_status handle_lock
  handle_op-replay now req s h = ground arith

  reset_idle-replay : (now : ℕ) (s : Server D) → s.replay ≡ [] → (reset_idle now s).replay ≡ []
  unfolding reset_idle
  reset_idle-replay now s h = ground arith

  stop_after-replay :
      (req : Request) (r : Response × Server D)
      → r.1.replay ≡ []
      → (stop_after drv req r).1.replay ≡ []
  unfolding shutdown
  stop_after-replay req (resp, s) h = ground arith

  -- A replay prompter that holds no credentials holds none after any request.
  pub serve_request-replay :
      (now : ℕ) (req : Request) (s : Server D)
      → s.replay ≡ []
      → (serve_request drv now req s).1.replay ≡ []
  unfolding serve_request handle
  serve_request-replay now req s h =
      stop_after-replay req (handle drv now req s)
        (elim (Bool-cases (text_eq req.op (text "status"))) [
          | inl status ↦ rw status (handle_op-replay now req s h)
          | inr other ↦
              rw other (handle_op-replay now req (reset_idle now s) (reset_idle-replay now s h))
        ])

  -- What one attempt leaves, from the outcome of the driver's `Unlock`.
  abbrev once : Answers → Server D → Result (Unit {0}) × D → Response × Server D
  once answers s r =
      unlocked_with drv s
        (Manager.unlocked_by drv replay_prompter (λ e t. (err e, t)) (s.manager, answers) r)

  handle_unlock-once :
      (answers : Answers) (s : Server D)
      → s.manager.configured ≡ true
      → s.manager.unlocked ≡ false
      → s.manager.retries ≡ retries
      → replay_dispatch answers (drv.credentials s.manager.driver) ≡ ok answers
      → handle_unlock drv (unlock_request answers) s
        ≡ once answers s (drv.unlock answers s.manager.driver)
  unfolding handle_unlock
  handle_unlock-once answers s c l one replayed = simp l (
      ap (unlocked_with drv s) (
        unlock_once drv replay_prompter s.manager answers answers answers c l one
          (ap (λ r. (r, answers)) replayed)))

  unlocked_by-outcome :
      (answers : Answers) (s : Server D) (r : Result (Unit {0}) × D)
      → ((once answers s r).1.manager.driver ≡ r.1)
        × (((once answers s r).0.accepted ≡ true) ↔ (r.0 ≡ ok tt))
  unlocked_by-outcome answers s (ok u, d) = (refl, (λ h. refl, λ h. refl))
  unlocked_by-outcome answers s (err e, d) = elim (Bool-cases (is_auth e)) [
    | inl refused ↦ rw refused (refl, (λ h. cc, λ h. cc))
    | inr other ↦ rw other (refl, (λ h. cc, λ h. cc))
  ]

  -- An agent over a configured vault that is still locked, given the answers that a prompter
  -- collected for the driver's own requests, calls the driver's `Unlock` once with exactly those
  -- answers, and accepts exactly when that succeeds.
  pub handle_unlock-forwards :
      (find : Text → Option Text) (answers : Answers) (s : Server D)
      → s.manager.configured ≡ true
      → s.manager.unlocked ≡ false
      → s.manager.retries ≡ retries
      → collect find (drv.credentials s.manager.driver) [] ≡ ok answers
      → ((handle_unlock drv (unlock_request answers) s).1.manager.driver
          ≡ (drv.unlock answers s.manager.driver).1)
        × (((handle_unlock drv (unlock_request answers) s).0.accepted ≡ true)
            ↔ ((drv.unlock answers s.manager.driver).0 ≡ ok tt))
  handle_unlock-forwards find answers s c l one collected =
      rw
        (handle_unlock-once answers s c l one
          (replay_collected find (drv.credentials s.manager.driver) collected))
        (unlocked_by-outcome answers s (drv.unlock answers s.manager.driver))
