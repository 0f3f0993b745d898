-- ===== src/Manager/Unlock.antt =====
-- `Unlock`: when it prompts, how often, what ends it, and what it leaves.
use go_flexconf.Manager
use go_flexconf.Manager.{Manager, unlock_loop, is_auth, unlocked_by}
use go_flexconf.Driver.{VaultDriver}
use go_flexconf.Prompt.{Answers, PromptRequest}
use go_flexconf.Base.{
  List, arith, suc, zero, ℕ, ◌+◌, ◌≤◌, Bool-cases, false, if◌then◌else◌, inl, inr, ltb, refl, true,
  ◌↔◌, ◌≡◌, ◌<◌, ap,
}
use go_flexconf.Errors.{Result, Error, err, ok}

module _ {C D W : Type 0} (drv : VaultDriver C D)
    (dispatch : List PromptRequest → W → Result Answers × W) where
  module _ (prompts : W → ℕ)
      (one_each : (reqs : List PromptRequest) (w : W)
        → prompts (dispatch reqs w).1 ≤ prompts w + 1) where
    unlocked_by_prompts :
        (n : ℕ) (retry : Error → Manager D × W → Result (Unit {0}) × (Manager D × W))
        (m : Manager D) (w : W) (r : Result (Unit {0}) × D)
        → ((e : Error) (d : D) → prompts (retry e (record m { driver = d }, w)).1.1 ≤ prompts w + n)
        → prompts (Manager.unlocked_by drv dispatch retry (m, w) r).1.1 ≤ prompts w + n
    unlocked_by_prompts n retry m w (ok u, d) h = omega arith
    unlocked_by_prompts n retry m w (err e, d) h = elim (Bool-cases (Manager.is_auth e)) [
      | inl refused ↦ rw refused (h e d)
      | inr other ↦ rw other (omega arith)
    ]

    attempt_with_prompts :
        (n : ℕ) (retry : Error → Manager D × W → Result (Unit {0}) × (Manager D × W))
        (m : Manager D) (r : Result Answers × W)
        → ((e : Error) (d : D) (w : W)
            → prompts (retry e (record m { driver = d }, w)).1.1 ≤ prompts w + n)
        → prompts (Manager.attempt_with drv dispatch retry m r).1.1 ≤ prompts r.1 + n
    attempt_with_prompts n retry m (err e, w) h = omega arith
    attempt_with_prompts n retry m (ok answers, w) h =
        unlocked_by_prompts n retry m w (drv.unlock answers m.driver) (λ e d. h e d w)

    unlock_loop_prompts :
        (n : ℕ) (reqs : List PromptRequest) (last : Result (Unit {0})) (m : Manager D) (w : W)
        → prompts (Manager.unlock_loop drv dispatch n reqs last (m, w)).1.1 ≤ prompts w + n
    unfolding Manager.unlock_loop
    unlock_loop_prompts zero reqs last m w = omega arith
    unlock_loop_prompts (suc n) reqs last m w = omega (
      arith,
      one_each reqs w,
      attempt_with_prompts n (λ e. Manager.unlock_loop drv dispatch n reqs (err e)) m
          (dispatch reqs w)
          (λ e d w'. unlock_loop_prompts n reqs (err e) (record m { driver = d }) w'),
    )

    -- If a dispatch counts as one prompt at most: one call of `Unlock` prompts at most as often as
    -- the retry cap says, and once where the cap is below one.
    pub unlock_prompts :
        (m : Manager D) (w : W)
        → prompts (Manager.unlock drv dispatch (m, w)).1.1
          ≤ prompts w + (if ltb m.retries 1 then 1 else m.retries)
    unfolding Manager.unlock
    unlock_prompts m w = elim (Bool-cases m.configured) [
      | inr not_yet ↦ simp not_yet (omega arith)
      | inl c ↦ elim (Bool-cases m.unlocked) [
        | inl u ↦ simp (c, u) (omega arith)
        | inr l ↦ simp (c, l) (unlock_loop_prompts _ (drv.credentials m.driver) (ok tt) m w)
      ]
    ]

  -- The result of the loop agrees with the flag it leaves.
  abbrev Agrees : Result (Unit {0}) × (Manager D × W) → Type 0
  Agrees (r, (m, w)) = (r ≡ ok tt) ↔ (m.unlocked ≡ true)

  Agrees-err : (e : Error) (m : Manager D) (w : W) → m.unlocked ≡ false → Agrees (err e, (m, w))
  Agrees-err e m w l = (λ h. cc, λ h. cc)

  unlocked_by-Agrees :
      (retry : Error → Manager D × W → Result (Unit {0}) × (Manager D × W)) (m : Manager D) (w : W)
      (r : Result (Unit {0}) × D)
      → m.unlocked ≡ false
      → ((e : Error) (d : D) → Agrees (retry e (record m { driver = d }, w)))
      → Agrees (Manager.unlocked_by drv dispatch retry (m, w) r)
  unlocked_by-Agrees retry m w (ok u, d) l h = (λ e. refl, λ e. refl)
  unlocked_by-Agrees retry m w (err e, d) l h = elim (Bool-cases (Manager.is_auth e)) [
    | inl refused ↦ rw refused (h e d)
    | inr other ↦ rw other (Agrees-err e (record m { driver = d }) w l)
  ]

  attempt_with-Agrees :
      (retry : Error → Manager D × W → Result (Unit {0}) × (Manager D × W)) (m : Manager D)
      (r : Result Answers × W)
      → m.unlocked ≡ false
      → ((e : Error) (d : D) (w : W) → Agrees (retry e (record m { driver = d }, w)))
      → Agrees (Manager.attempt_with drv dispatch retry m r)
  attempt_with-Agrees retry m (err e, w) l h = Agrees-err e m w l
  attempt_with-Agrees retry m (ok answers, w) l h =
      unlocked_by-Agrees retry m w (drv.unlock answers m.driver) l (λ e d. h e d w)

  unlock_loop-Agrees :
      (n : ℕ) (reqs : List PromptRequest) (e : Error) (m : Manager D) (w : W)
      → m.unlocked ≡ false
      → Agrees (Manager.unlock_loop drv dispatch n reqs (err e) (m, w))
  unfolding Manager.unlock_loop
  unlock_loop-Agrees zero reqs e m w l = Agrees-err e m w l
  unlock_loop-Agrees (suc n) reqs e m w l =
      attempt_with-Agrees (λ e'. Manager.unlock_loop drv dispatch n reqs (err e')) m
        (dispatch reqs w) l (λ e' d w'. unlock_loop-Agrees n reqs e' (record m { driver = d }) w' l)

  unlock_loop-Agrees_pos :
      (n : ℕ) (reqs : List PromptRequest) (m : Manager D) (w : W)
      → 0 < n
      → m.unlocked ≡ false
      → Agrees (Manager.unlock_loop drv dispatch n reqs (ok tt) (m, w))
  unfolding Manager.unlock_loop
  unlock_loop-Agrees_pos zero reqs m w p l = elim p [ ]
  unlock_loop-Agrees_pos (suc n) reqs m w p l =
      attempt_with-Agrees (λ e'. Manager.unlock_loop drv dispatch n reqs (err e')) m
        (dispatch reqs w) l (λ e' d w'. unlock_loop-Agrees n reqs e' (record m { driver = d }) w' l)

  attempts_pos : (n : ℕ) → 0 < (if ltb n 1 then 1 else n)
  attempts_pos n = ground arith

  -- On a configured Manager `Unlock` returns no error exactly when it leaves the Manager unlocked.
  pub unlock_agrees :
      (m : Manager D) (w : W)
      → m.configured ≡ true
      → ((Manager.unlock drv dispatch (m, w)).0 ≡ ok tt)
        ↔ ((Manager.unlock drv dispatch (m, w)).1.0.unlocked ≡ true)
  unfolding Manager.unlock
  unlock_agrees m w c = elim (Bool-cases m.unlocked) [
    | inl u ↦ simp (c, u) (λ _. refl, λ _. refl)
    | inr l ↦
        simp (c, l)
          (unlock_loop-Agrees_pos _ (drv.credentials m.driver) m w (attempts_pos m.retries) l)
  ]

  unlock_loop-dispatch_error :
      (n : ℕ) (m : Manager D) (w w' : W) (e : Error)
      → 0 < n
      → dispatch (drv.credentials m.driver) w ≡ (err e, w')
      → Manager.unlock_loop drv dispatch n (drv.credentials m.driver) (ok tt) (m, w)
        ≡ (err e, (m, w'))
  unfolding Manager.unlock_loop
  unlock_loop-dispatch_error zero m w w' e p failed = elim p [ ]
  unlock_loop-dispatch_error (suc n) m w w' e p failed =
      ap
        (Manager.attempt_with drv dispatch
          (λ e'. Manager.unlock_loop drv dispatch n (drv.credentials m.driver) (err e')) m)
        failed

  -- A prompter's error ends `Unlock` at once, whatever the retry cap: the error is returned, and
  -- the driver is not called.
  pub unlock_dispatch_error :
      (m : Manager D) (w w' : W) (e : Error)
      → m.configured ≡ true
      → m.unlocked ≡ false
      → dispatch (drv.credentials m.driver) w ≡ (err e, w')
      → Manager.unlock drv dispatch (m, w) ≡ (err e, (m, w'))
  unfolding Manager.unlock
  unlock_dispatch_error m w w' e c l failed =
      simp (c, l) (unlock_loop-dispatch_error _ m w w' e (attempts_pos m.retries) failed)

  unlock_loop_once :
      (n : ℕ) (reqs : List PromptRequest) (m : Manager D) (w w' : W) (answers : Answers)
      → n ≡ 1
      → dispatch reqs w ≡ (ok answers, w')
      → Manager.unlock_loop drv dispatch n reqs (ok tt) (m, w)
        ≡ Manager.unlocked_by drv dispatch (λ e t. (err e, t)) (m, w') (drv.unlock answers m.driver)
  unfolding Manager.unlock_loop
  unlock_loop_once n reqs m w w' answers e h =
      rw e (ap (Manager.attempt_with drv dispatch (λ e' t. (err e', t)) m) h)

  -- With a retry cap of one, the outcome of the one attempt.
  pub unlock_once :
      (m : Manager D) (w w' : W) (answers : Answers)
      → m.configured ≡ true
      → m.unlocked ≡ false
      → m.retries ≡ 1
      → dispatch (drv.credentials m.driver) w ≡ (ok answers, w')
      → Manager.unlock drv dispatch (m, w)
        ≡ Manager.unlocked_by drv dispatch (λ e t. (err e, t)) (m, w') (drv.unlock answers m.driver)
  unfolding Manager.unlock
  unlock_once m w w' answers c l one h =
      simp (c, l) (unlock_loop_once _ (drv.credentials m.driver) m w w' answers (ground arith) h)
