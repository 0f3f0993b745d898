-- ===== src/Manager.antt =====
-- flexvault/manager.go: the Manager. Its state holds the driver's, and `W` is the world in which
-- the active prompter dispatches. The mutex makes every method one step, and is not modelled.
pub mod Unlock
pub mod Lifecycle
pub mod Access
pub mod Kept
pub mod Remembering
use go_flexconf.Driver.{VaultDriver, Capabilities, Initializer}
use go_flexconf.Action.{Action}
use go_flexconf.Prompt.{Answers, PromptRequest}
use go_flexconf.Base.{
  Bool, List, Option, false, if◌then◌else◌, ltb, none, not, some, suc, true, zero, ℕ,
}
use go_flexconf.Errors.{Error, Result, err, ok, wraps, auth, not_configured, unsupported, locked}
use go_flexconf.Text.{Text}
use go_flexconf.Address.{join_address, parse_address}

pub record Manager (D : Type 0) : Type 0 where
  pub driver : D
  pub retries : ℕ
  pub configured : Bool
  pub unlocked : Bool

-- NewManager with the options that the sources pass
abbrev pub new_manager : {D : Type 0} → D → ℕ → Manager D
new_manager d retries = record {
  driver = d;
  retries = retries;
  configured = false;
  unlocked = false;
}

abbrev pub default_retries : ℕ
default_retries = 3

-- WithUnlockRetries
abbrev pub with_unlock_retries : {D : Type 0} → ℕ → Manager D → Manager D
with_unlock_retries n m = record m { retries = n }

-- activePrompter: the one of WithPrompter, or the process-wide one when it is needed
abbrev pub active_prompter : {P : Type 0} → Option P → P → P
active_prompter (some own) process_wide = own
active_prompter none process_wide = process_wide

abbrev pub is_auth : Error → Bool
is_auth (wraps auth) = true
is_auth e = false

-- The outcome of a call of the driver, put back into the Manager.
abbrev pub with_driver : {D A : Type 0} → Manager D → Result A × D → Result A × Manager D
with_driver m (r, d) = (r, record m { driver = d })

module _ {C D W : Type 0} (drv : VaultDriver C D)
    (dispatch : List PromptRequest → Action W Answers) where
  abbrev pub configured_by : Manager D → Result (Unit {0}) × D → Result (Unit {0}) × Manager D
  configured_by m (ok u, d) = (ok tt, record m { driver = d; configured = true })
  configured_by m (err e, d) = (err e, record m { driver = d })

  unfoldable pub configure : C → Action (Manager D) (Unit {0})
  configure decode m = configured_by m (drv.configure decode m.driver)

  abbrev pub State : Type 0
  State = Manager D × W

  abbrev pub Retry : Type 0
  Retry = Error → State → Result (Unit {0}) × State

  -- The outcome of driver.Unlock; `retry` is the rest of the loop.
  abbrev pub unlocked_by : Retry → State → Result (Unit {0}) × D → Result (Unit {0}) × State
  unlocked_by retry (m, w) (ok u, d) = (ok tt, (record m { driver = d; unlocked = true }, w))
  unlocked_by retry (m, w) (err e, d) =
      if is_auth e
      then retry e (record m { driver = d }, w)
      else (err e, (record m { driver = d }, w))

  abbrev pub attempt_with : Retry → Manager D → Result Answers × W → Result (Unit {0}) × State
  attempt_with retry m (err e, w) = (err e, (m, w))
  attempt_with retry m (ok answers, w) = unlocked_by retry (m, w) (drv.unlock answers m.driver)

  -- The loop, by the attempts that are left; the error is `lastErr`.
  unfoldable pub unlock_loop :
      ℕ → List PromptRequest → Result (Unit {0}) → State → Result (Unit {0}) × State
  unlock_loop zero reqs last s = (last, s)
  unlock_loop (suc n) reqs last (m, w) =
      attempt_with (λ e. unlock_loop n reqs (err e)) m (dispatch reqs w)

  abbrev attempts : Manager D → ℕ
  attempts m = if ltb m.retries 1 then 1 else m.retries

  -- unlockLocked
  unfoldable pub unlock_locked : State → Result (Unit {0}) × State
  unfolding unlock_loop
  unlock_locked (m, w) = unlock_loop (attempts m) (drv.credentials m.driver) (ok tt) (m, w)

  unfoldable pub unlock : State → Result (Unit {0}) × State
  unfolding unlock_locked
  unlock (m, w) =
      if not m.configured
      then (err (wraps not_configured), (m, w))
      else if m.unlocked
      then (ok tt, (m, w))
      else unlock_locked (m, w)

  -- Open
  abbrev pub open_with : W → Result (Unit {0}) × Manager D → Result (Unit {0}) × State
  open_with w (err e, m) = (err e, (m, w))
  open_with w (ok u, m) = unlock (m, w)

  unfoldable pub open_vault : C → State → Result (Unit {0}) × State
  unfolding configure unlock
  open_vault decode (m, w) = open_with w (configure decode m)

  -- Create
  abbrev created_by : Initializer D → Manager D → Result Answers × W → Result (Unit {0}) × State
  created_by i m (err e, w) = (err e, (m, w))
  created_by i m (ok answers, w) =
      let (r, d) = i.init answers m.driver in (r, (record m { driver = d }, w))

  abbrev create_with : Initializer D → W → Result (Unit {0}) × Manager D → Result (Unit {0}) × State
  create_with i w (err e, m) = (err e, (m, w))
  create_with i w (ok u, m) = created_by i m (dispatch (i.init_credentials m.driver) w)

  abbrev create_for : Option (Initializer D) → C → State → Result (Unit {0}) × State
  create_for none decode (m, w) = (err (wraps unsupported), (m, w))
  create_for (some i) decode (m, w) =
      create_with i w (configured_by m (drv.configure decode m.driver))

  unfoldable pub create : C → State → Result (Unit {0}) × State
  create = create_for drv.initializer

module _ {C D : Type 0} (drv : VaultDriver C D) where
  unfoldable pub guard : Manager D → Result (Unit {0})
  guard m =
      if not m.configured
      then err (wraps not_configured)
      else if not m.unlocked
      then err (wraps locked)
      else ok tt

  abbrev pub get_at : Result (Text × Text) → Action (Manager D) Text
  get_at (err e) m = (err e, m)
  get_at (ok (ns, key)) m = with_driver m (drv.get (join_address ns key) m.driver)

  abbrev pub get_guarded : Result (Unit {0}) → Text → Action (Manager D) Text
  get_guarded (err e) addr m = (err e, m)
  get_guarded (ok u) addr m = get_at (parse_address addr) m

  unfoldable pub get : Text → Action (Manager D) Text
  unfolding guard
  get addr m = get_guarded (guard m) addr m

  abbrev pub set_at : Result (Text × Text) → Text → Action (Manager D) (Unit {0})
  set_at (err e) value m = (err e, m)
  set_at (ok (ns, key)) value m = with_driver m (drv.set (join_address ns key) value m.driver)

  abbrev pub set_guarded : Result (Unit {0}) → Text → Text → Action (Manager D) (Unit {0})
  set_guarded (err e) addr value m = (err e, m)
  set_guarded (ok u) addr value m = set_at (parse_address addr) value m

  unfoldable pub set : Text → Text → Action (Manager D) (Unit {0})
  unfolding guard
  set addr value m = set_guarded (guard m) addr value m

  abbrev list_guarded : Result (Unit {0}) → Text → Action (Manager D) (List Text)
  list_guarded (err e) ns m = (err e, m)
  list_guarded (ok u) ns m = with_driver m (drv.list ns m.driver)

  unfoldable pub list : Text → Action (Manager D) (List Text)
  unfolding guard
  list ns m = list_guarded (guard m) ns m

  abbrev pub capabilities : Manager D → Capabilities
  capabilities m = drv.capabilities m.driver

  unfoldable pub lock : Action (Manager D) (Unit {0})
  lock m = with_driver (record m { unlocked = false }) (drv.lock m.driver)

  abbrev pub is_unlocked : Manager D → Bool
  is_unlocked m = m.unlocked
