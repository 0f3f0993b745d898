-- ===== src/Manager/Kept.antt =====
-- What every call of a driver keeps, an `Open` of its Manager keeps.
use go_flexconf.Manager
use go_flexconf.Manager.{
  Manager, unlock_loop, is_auth, unlocked_by, attempt_with, open_with, configured_by,
}
use go_flexconf.Driver.{VaultDriver}
use go_flexconf.Prompt.{Answers, PromptRequest}
use go_flexconf.Errors.{Result, Error, err, ok}
use go_flexconf.Base.{Bool-cases, List, inl, inr, suc, true, zero, ℕ}

module _ {C D W : Type 0} (drv : VaultDriver C D)
    (dispatch : List PromptRequest → W → Result Answers × W) (P : D → Type 0)
    (configure_keeps : (c : C) (d : D) → P d → P (drv.configure c d).1)
    (unlock_keeps : (a : Answers) (d : D) → P d → P (drv.unlock a d).1) where
  unlocked_by_kept :
      (retry : Error → Manager D × W → Result (Unit {0}) × (Manager D × W)) (m : Manager D) (w : W)
      (r : Result (Unit {0}) × D)
      → P r.1
      → ((e : Error) (d : D) → P d → P (retry e (record m { driver = d }, w)).1.0.driver)
      → P (Manager.unlocked_by drv dispatch retry (m, w) r).1.0.driver
  unlocked_by_kept retry m w (ok u, d) p h = p
  unlocked_by_kept retry m w (err e, d) p h = elim (Bool-cases (Manager.is_auth e)) [
    | inl refused ↦ rw refused (h e d p)
    | inr other ↦ rw other p
  ]

  attempt_with_kept :
      (retry : Error → Manager D × W → Result (Unit {0}) × (Manager D × W)) (m : Manager D)
      (r : Result Answers × W)
      → P m.driver
      → ((e : Error) (d : D) (w : W) → P d → P (retry e (record m { driver = d }, w)).1.0.driver)
      → P (Manager.attempt_with drv dispatch retry m r).1.0.driver
  attempt_with_kept retry m (err e, w) p h = p
  attempt_with_kept retry m (ok answers, w) p h =
      unlocked_by_kept retry m w (drv.unlock answers m.driver) (unlock_keeps answers m.driver p)
        (λ e d. h e d w)

  unlock_loop_kept :
      (n : ℕ) (reqs : List PromptRequest) (last : Result (Unit {0})) (m : Manager D) (w : W)
      → P m.driver
      → P (Manager.unlock_loop drv dispatch n reqs last (m, w)).1.0.driver
  unfolding Manager.unlock_loop
  unlock_loop_kept zero reqs last m w p = p
  unlock_loop_kept (suc n) reqs last m w p =
      attempt_with_kept (λ e. Manager.unlock_loop drv dispatch n reqs (err e)) m (dispatch reqs w) p
        (λ e d w'. unlock_loop_kept n reqs (err e) (record m { driver = d }) w')

  unlock_kept :
      (m : Manager D) (w : W) → P m.driver → P (Manager.unlock drv dispatch (m, w)).1.0.driver
  unfolding Manager.unlock
  unlock_kept m w p = elim (Bool-cases m.configured) [
    | inr not_yet ↦ simp not_yet p
    | inl c ↦ elim (Bool-cases m.unlocked) [
      | inl u ↦ simp (c, u) p
      | inr l ↦ simp (c, l) (unlock_loop_kept _ (drv.credentials m.driver) (ok tt) m w p)
    ]
  ]

  open_with_kept :
      (w : W) (m : Manager D) (r : Result (Unit {0}) × D)
      → P r.1
      → P (Manager.open_with drv dispatch w (Manager.configured_by drv dispatch m r)).1.0.driver
  open_with_kept w m (err e, d) p = p
  open_with_kept w m (ok u, d) p = unlock_kept (record m { driver = d; configured = true }) w p

  pub open_vault_kept :
      (c : C) (m : Manager D) (w : W)
      → P m.driver
      → P (Manager.open_vault drv dispatch c (m, w)).1.0.driver
  unfolding Manager.open_vault Manager.configure
  open_vault_kept c m w p =
      open_with_kept w m (drv.configure c m.driver) (configure_keeps c m.driver p)
