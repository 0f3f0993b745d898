-- ===== src/Manager/Lifecycle.antt =====
-- The lifecycle: what a Manager knows of its driver, over any sequence of calls.
use go_flexconf.Manager
use go_flexconf.Manager.{Manager, unlock_loop, is_auth, with_driver, is_unlocked, new_manager}
use go_flexconf.Driver.{VaultDriver, Honours, Initializer}
use go_flexconf.Prompt.{Answers, PromptRequest}
use go_flexconf.Base.{
  List, false, suc, true, zero, ℕ, ◌≡◌, Bool-cases, inl, inr, refl, some, sym, ◌∙◌, Option,
  false≢true, none,
}
use go_flexconf.Errors.{Result, Error, err, ok}
use go_flexconf.Text.{Text}
use go_flexconf.Address.{join_address, parse_address}

module _ {C D W : Type 0} (drv : VaultDriver C D)
    (dispatch : List PromptRequest → W → Result Answers × W) where
  -- One call of a method, whatever its outcome.
  pub data Step : Manager D × W → Manager D × W → Type 0 where
    configures :
        (c : C) (m : Manager D) (w : W) → Step (m, w) ((Manager.configure drv dispatch c m).1, w)
    unlocks : (m : Manager D) (w : W) → Step (m, w) (Manager.unlock drv dispatch (m, w)).1
    opens :
        (c : C) (m : Manager D) (w : W) → Step (m, w) (Manager.open_vault drv dispatch c (m, w)).1
    creates : (c : C) (m : Manager D) (w : W) → Step (m, w) (Manager.create drv dispatch c (m, w)).1
    gets : (addr : Text) (m : Manager D) (w : W) → Step (m, w) ((Manager.get drv addr m).1, w)
    sets :
        (addr value : Text) (m : Manager D) (w : W)
        → Step (m, w) ((Manager.set drv addr value m).1, w)
    lists : (ns : Text) (m : Manager D) (w : W) → Step (m, w) ((Manager.list drv ns m).1, w)
    locks : (m : Manager D) (w : W) → Step (m, w) ((Manager.lock drv m).1, w)
    -- The rest of the program uses the prompter.
    elsewhere : (m : Manager D) (w w' : W) → Step (m, w) (m, w')

  pub data Reach (s : Manager D × W) : Manager D × W → Type 0 where
    here : Reach s s
    next : {t u : Manager D × W} → Reach s t → Step t u → Reach s u

  -- A Manager that says it is unlocked is configured, and its driver is open.
  pub record Inv (IsOpen : D → Type 0) (m : Manager D) : Type 0 where
    pub is_configured : m.unlocked ≡ true → m.configured ≡ true
    pub is_open : m.unlocked ≡ true → IsOpen m.driver

  -- A locked Manager knows nothing of its driver.
  Inv-locked : {IsOpen : D → Type 0} (m : Manager D) → m.unlocked ≡ false → Inv IsOpen m
  Inv-locked m u = record {
    is_configured = λ h. cc;
    is_open = λ h. absurd (false≢true (sym u ∙ h));
  }

  module _ {IsOpen : D → Type 0} (drv_honours : Honours drv IsOpen) where
    configured_by-Inv :
        (m : Manager D) (r : Result (Unit {0}) × D)
        → Inv IsOpen m
        → (IsOpen m.driver → IsOpen r.1)
        → Inv IsOpen (Manager.configured_by drv dispatch m r).1
    configured_by-Inv m (ok u, d) inv keeps = record {
      is_configured = λ h. refl;
      is_open = λ h. keeps (inv.is_open h);
    }
    configured_by-Inv m (err e, d) inv keeps = record {
      is_configured = inv.is_configured;
      is_open = λ h. keeps (inv.is_open h);
    }

    configure-Inv :
        (c : C) (m : Manager D) → Inv IsOpen m → Inv IsOpen (Manager.configure drv dispatch c m).1
    unfolding Manager.configure
    configure-Inv c m inv =
        configured_by-Inv m (drv.configure c m.driver) inv (drv_honours.configure_keeps c m.driver)

    unlocked_by-Inv :
        (retry : Error → Manager D × W → Result (Unit {0}) × (Manager D × W)) (m : Manager D)
        (w : W) (r : Result (Unit {0}) × D)
        → m.configured ≡ true
        → m.unlocked ≡ false
        → (r.0 ≡ ok tt → IsOpen r.1)
        → ((e : Error) (d : D) → Inv IsOpen (retry e (record m { driver = d }, w)).1.0)
        → Inv IsOpen (Manager.unlocked_by drv dispatch retry (m, w) r).1.0
    unlocked_by-Inv retry m w (ok u, d) c l opened again = record {
      is_configured = λ h. c;
      is_open = λ h. opened refl;
    }
    unlocked_by-Inv retry m w (err e, d) c l opened again = elim (Bool-cases (Manager.is_auth e)) [
      | inl refused ↦ rw refused (again e d)
      | inr other ↦ rw other (Inv-locked (record m { driver = d }) l)
    ]

    attempt_with-Inv :
        (retry : Error → Manager D × W → Result (Unit {0}) × (Manager D × W)) (m : Manager D)
        (r : Result Answers × W)
        → m.configured ≡ true
        → m.unlocked ≡ false
        → ((e : Error) (d : D) (w : W) → Inv IsOpen (retry e (record m { driver = d }, w)).1.0)
        → Inv IsOpen (Manager.attempt_with drv dispatch retry m r).1.0
    attempt_with-Inv retry m (err e, w) c l again = Inv-locked m l
    attempt_with-Inv retry m (ok answers, w) c l again =
        unlocked_by-Inv retry m w (drv.unlock answers m.driver) c l
          (drv_honours.unlock_opens answers m.driver) (λ e d. again e d w)

    unlock_loop-Inv :
        (n : ℕ) (reqs : List PromptRequest) (last : Result (Unit {0})) (m : Manager D) (w : W)
        → m.configured ≡ true
        → m.unlocked ≡ false
        → Inv IsOpen (Manager.unlock_loop drv dispatch n reqs last (m, w)).1.0
    unfolding Manager.unlock_loop
    unlock_loop-Inv zero reqs last m w c l = Inv-locked m l
    unlock_loop-Inv (suc n) reqs last m w c l =
        attempt_with-Inv (λ e. Manager.unlock_loop drv dispatch n reqs (err e)) m (dispatch reqs w)
          c l (λ e d w'. unlock_loop-Inv n reqs (err e) (record m { driver = d }) w' c l)

    unlock-Inv :
        (m : Manager D) (w : W) → Inv IsOpen m → Inv IsOpen (Manager.unlock drv dispatch (m, w)).1.0
    unfolding Manager.unlock
    unlock-Inv m w inv = elim (Bool-cases m.configured) [
      | inr not_yet ↦ simp not_yet inv
      | inl c ↦ elim (Bool-cases m.unlocked) [
        | inl u ↦ simp (c, u) inv
        | inr l ↦ simp (c, l) (unlock_loop-Inv _ (drv.credentials m.driver) (ok tt) m w c l)
      ]
    ]

    open_with-Inv :
        (w : W) (r : Result (Unit {0}) × Manager D)
        → Inv IsOpen r.1
        → Inv IsOpen (Manager.open_with drv dispatch w r).1.0
    open_with-Inv w (ok u, m) inv = unlock-Inv m w inv
    open_with-Inv w (err e, m) inv = inv

    created_by-Inv :
        (i : Initializer D) (m : Manager D) (r : Result Answers × W)
        → drv.initializer ≡ some i
        → Inv IsOpen m
        → Inv IsOpen (Manager.created_by drv dispatch i m r).1.0
    created_by-Inv i m (err e, w) p inv = inv
    created_by-Inv i m (ok answers, w) p inv = record {
      is_configured = inv.is_configured;
      is_open = λ h. drv_honours.init_keeps i answers m.driver p (inv.is_open h);
    }

    create_with-Inv :
        (i : Initializer D) (w : W) (r : Result (Unit {0}) × Manager D)
        → drv.initializer ≡ some i
        → Inv IsOpen r.1
        → Inv IsOpen (Manager.create_with drv dispatch i w r).1.0
    create_with-Inv i w (err e, m) p inv = inv
    create_with-Inv i w (ok u, m) p inv =
        created_by-Inv i m (dispatch (i.init_credentials m.driver) w) p inv

    create_for-Inv :
        (o : Option (Initializer D)) (c : C) (m : Manager D) (w : W)
        → drv.initializer ≡ o
        → Inv IsOpen m
        → Inv IsOpen (Manager.create_for drv dispatch o c (m, w)).1.0
    create_for-Inv none c m w p inv = inv
    create_for-Inv (some i) c m w p inv =
        create_with-Inv i w (Manager.configured_by drv dispatch m (drv.configure c m.driver)) p (
          configured_by-Inv m (drv.configure c m.driver) inv
            (drv_honours.configure_keeps c m.driver))

    create-Inv :
        (c : C) (m : Manager D) (w : W)
        → Inv IsOpen m
        → Inv IsOpen (Manager.create drv dispatch c (m, w)).1.0
    unfolding Manager.create
    create-Inv c m w inv = create_for-Inv drv.initializer c m w refl inv

    -- A call of the driver that keeps it open keeps the invariant.
    with_driver-Inv :
        {A : Type 0} (m : Manager D) (r : Result A × D)
        → Inv IsOpen m
        → (IsOpen m.driver → IsOpen r.1)
        → Inv IsOpen (Manager.with_driver m r).1
    with_driver-Inv m (r, d) inv keeps = record {
      is_configured = inv.is_configured;
      is_open = λ h. keeps (inv.is_open h);
    }

    get_at-Inv :
        (r : Result (Text × Text)) (m : Manager D)
        → Inv IsOpen m
        → Inv IsOpen (Manager.get_at drv r m).1
    get_at-Inv (err e) m inv = inv
    get_at-Inv (ok (ns, key)) m inv =
        with_driver-Inv m (drv.get (join_address ns key) m.driver) inv
          (drv_honours.get_keeps (join_address ns key) m.driver)

    get_guarded-Inv :
        (r : Result (Unit {0})) (addr : Text) (m : Manager D)
        → Inv IsOpen m
        → Inv IsOpen (Manager.get_guarded drv r addr m).1
    get_guarded-Inv (err e) addr m inv = inv
    get_guarded-Inv (ok u) addr m inv = get_at-Inv (parse_address addr) m inv

    set_at-Inv :
        (r : Result (Text × Text)) (value : Text) (m : Manager D)
        → Inv IsOpen m
        → Inv IsOpen (Manager.set_at drv r value m).1
    set_at-Inv (err e) value m inv = inv
    set_at-Inv (ok (ns, key)) value m inv =
        with_driver-Inv m (drv.set (join_address ns key) value m.driver) inv
          (drv_honours.set_keeps (join_address ns key) value m.driver)

    set_guarded-Inv :
        (r : Result (Unit {0})) (addr value : Text) (m : Manager D)
        → Inv IsOpen m
        → Inv IsOpen (Manager.set_guarded drv r addr value m).1
    set_guarded-Inv (err e) addr value m inv = inv
    set_guarded-Inv (ok u) addr value m inv = set_at-Inv (parse_address addr) value m inv

    list_guarded-Inv :
        (r : Result (Unit {0})) (ns : Text) (m : Manager D)
        → Inv IsOpen m
        → Inv IsOpen (Manager.list_guarded drv r ns m).1
    list_guarded-Inv (err e) ns m inv = inv
    list_guarded-Inv (ok u) ns m inv =
        with_driver-Inv m (drv.list ns m.driver) inv (drv_honours.list_keeps ns m.driver)

    Step-Inv : {s t : Manager D × W} → Step s t → Inv IsOpen s.0 → Inv IsOpen t.0
    unfolding Manager.open_vault Manager.get Manager.set Manager.list Manager.lock
    Step-Inv (configures c m w) inv = configure-Inv c m inv
    Step-Inv (unlocks m w) inv = unlock-Inv m w inv
    Step-Inv (opens c m w) inv =
        open_with-Inv w (Manager.configure drv dispatch c m) (configure-Inv c m inv)
    Step-Inv (creates c m w) inv = create-Inv c m w inv
    Step-Inv (gets addr m w) inv = get_guarded-Inv (Manager.guard drv m) addr m inv
    Step-Inv (sets addr value m w) inv = set_guarded-Inv (Manager.guard drv m) addr value m inv
    Step-Inv (lists ns m w) inv = list_guarded-Inv (Manager.guard drv m) ns m inv
    Step-Inv (locks m w) inv = Inv-locked (Manager.lock drv m).1 refl
    Step-Inv (elsewhere m w w') inv = inv

    Reach-Inv : {s t : Manager D × W} → Inv IsOpen s.0 → Reach s t → Inv IsOpen t.0
    Reach-Inv inv here = inv
    Reach-Inv inv (next r st) = Step-Inv st (Reach-Inv inv r)

    -- Whatever the calls since the Manager was made and whatever their outcomes, over a driver that
    -- honours the interface: a Manager that reports to be unlocked has been configured, and its
    -- driver is open.
    pub unlocked_is_open :
        (d : D) (retries : ℕ) (w : W) {m : Manager D} {w' : W}
        → Reach (Manager.new_manager d retries, w) (m, w')
        → Manager.is_unlocked drv m ≡ true
        → (m.configured ≡ true) × IsOpen m.driver
    unlocked_is_open d retries w r u =
        let inv = Reach-Inv (Inv-locked (Manager.new_manager d retries) refl) r in
        (inv.is_configured u, inv.is_open u)
