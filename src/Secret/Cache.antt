-- ===== src/Secret/Cache.antt =====
-- The cache of unlocked vaults: what is in it is unlocked, and a vault in it is not unlocked again.
use go_flexconf.Secret.{
  Operator, SecretPolicy, kept_as, cached_or, definition_at, driver_for, get_from, manager_of,
  open_new, resolve_secret, secret_manager, unlocking, put_back,
}
use go_flexconf.Manager
use go_flexconf.Manager.{Manager, configured_by, default_retries, get_at, get_guarded, new_manager}
use go_flexconf.Manager.Unlock.{unlock_agrees}
use go_flexconf.Driver.{VaultDriver}
use go_flexconf.Dict.Laws.{insert-All, lookup-All, lookup-insert_self}
use go_flexconf.Errors.{ok, err, Result-cases, Result, err_ne_ok, ok_injective, ◌>>=◌}
use go_flexconf.Action.{Action}
use go_flexconf.Base.{All, List, refl, subst, true, ◌≡◌, Option-cases, inl, inr, some, ap, sym, ◌∙◌}
use go_flexconf.Prompt.{Answers, PromptRequest}
use go_flexconf.Dict.{Dict, lookup}
use go_flexconf.Text.{Text}
use go_flexconf.Address.{parse_address}
use go_flexconf.Vaults.{VaultConf, Yaml, parse_ref}

-- A Manager that is unlocked.
abbrev pub Ready : {D : Type 0} → Manager D → Type 0
Ready m = m.unlocked ≡ true

module _ {C D : Type 0} (drv : VaultDriver C D) where
  get_at-Ready :
      (r : Result (Text × Text)) (m : Manager D) → Ready m → Ready (Manager.get_at drv r m).1
  get_at-Ready (err e) m h = h
  get_at-Ready (ok (namespace, key)) m h = h

  get_guarded-Ready :
      (g : Result (Unit {0})) (addr : Text) (m : Manager D)
      → Ready m
      → Ready (Manager.get_guarded drv g addr m).1
  get_guarded-Ready (err e) addr m h = h
  get_guarded-Ready (ok u) addr m h = get_at-Ready (parse_address addr) m h

  get-Ready : (addr : Text) (m : Manager D) → Ready m → Ready (Manager.get drv addr m).1
  unfolding Manager.get
  get-Ready addr m h = get_guarded-Ready (Manager.guard drv m) addr m h

module _ {C D W : Type 0} (drv : VaultDriver C D) (dispatch : List PromptRequest → Action W Answers)
    (op : Operator C D W) where
  -- Every Manager of a cache is unlocked.
  abbrev pub AllReady : Dict (Manager D) → Type 0
  AllReady ms = All (λ e. Ready e.1) ms

  -- What a call returns is unlocked, if it returns a Manager.
  abbrev Opens : Result (Manager D) × (Dict (Manager D) × W) → Type 0
  Opens c = ((m : Manager D) → c.0 ≡ ok m → Ready m) × AllReady c.1.0

  kept_as-Opens :
      (name : Text) (ms : Dict (Manager D)) (r : Result (Unit {0}) × (Manager D × W))
      → (r.0 ≡ ok tt → Ready r.1.0)
      → AllReady ms
      → Opens (kept_as drv dispatch op name ms r)
  kept_as-Opens name ms (ok u, (m, w)) h k = (
    (λ n e. subst Ready (ok_injective e) (h refl)),
    insert-All (λ e. Ready e.1) name m ms (h refl) k,
  )
  kept_as-Opens name ms (err e, (m, w)) h k = ((λ n f. absurd (err_ne_ok f)), k)

  unlocking-Opens :
      (name : Text) (ms : Dict (Manager D)) (w : W) (m : Manager D) (r : Result (Unit {0}) × D)
      → AllReady ms
      → Opens (unlocking drv dispatch op name ms w (Manager.configured_by drv dispatch m r))
  unlocking-Opens name ms w m (ok u, d) k =
      kept_as-Opens name ms _
        ((unlock_agrees drv dispatch (record m { driver = d; configured = true }) w refl).0) k
  unlocking-Opens name ms w m (err e, d) k = ((λ n f. absurd (err_ne_ok f)), k)

  open_new-Opens :
      (name : Text) (ms : Dict (Manager D)) (w : W) (r : Result (D × Dict Yaml))
      → AllReady ms
      → Opens (open_new drv dispatch op name (ms, w) r)
  unfolding Manager.configure
  open_new-Opens name ms w (ok (d, config)) k =
      unlocking-Opens name ms w (new_manager d default_retries) _ k
  open_new-Opens name ms w (err e) k = ((λ n f. absurd (err_ne_ok f)), k)

  cached_or-Opens :
      (policy : SecretPolicy) (name : Text) (conf : VaultConf) (ms : Dict (Manager D)) (w : W)
      → AllReady ms
      → Opens (cached_or drv dispatch op policy name conf (ms, w) (lookup name ms))
  cached_or-Opens policy name conf ms w k = elim (Option-cases (lookup name ms)) [
    | inr (m, found) ↦
        rw found
          ((λ n e. subst Ready (ok_injective e) (lookup-All (λ e. Ready e.1) name ms k found)), k)
    | inl new ↦ rw new (open_new-Opens name ms w (driver_for drv dispatch op policy w name conf) k)
  ]

  put_back-AllReady :
      (name : Text) (m : Manager D) (ms : Dict (Manager D))
      → Ready m
      → AllReady ms
      → AllReady (put_back drv dispatch op name m ms)
  put_back-AllReady name m ms h k = elim (Option-cases (lookup name ms)) [
    | inl absent ↦ rw (absent, put_back) k
    | inr (old, there) ↦ rw (there, put_back) (insert-All (λ e. Ready e.1) name m ms h k)
  ]

  get_from-AllReady :
      (addr name : Text) (c : Result (Manager D) × (Dict (Manager D) × W))
      → Opens c
      → AllReady (get_from drv dispatch op addr (c.0 >>= λ m. ok (name, m), c.1)).1.0
  get_from-AllReady addr name (ok m, (ms, w)) h =
      put_back-AllReady name _ ms (get-Ready drv addr m (h.0 m refl)) h.1
  get_from-AllReady addr name (err e, (ms, w)) h = h.1

  manager_of-AllReady :
      (policy : SecretPolicy) (addr : Text) (ms : Dict (Manager D)) (w : W)
      (r : Result (Text × VaultConf))
      → AllReady ms
      → AllReady (get_from drv dispatch op addr (manager_of drv dispatch op policy (ms, w) r)).1.0
  manager_of-AllReady policy addr ms w (ok (name, conf)) k =
      get_from-AllReady addr name
        (cached_or drv dispatch op policy name conf (ms, w) (lookup name ms))
        (cached_or-Opens policy name conf ms w k)
  manager_of-AllReady policy addr ms w (err e) k = k

  -- Whatever a resolution of a reference does, under either policy, the cache holds unlocked vaults and no
  -- others, if it did before: a vault whose unlock failed is not kept.
  pub resolve_secret-AllReady :
      (policy : SecretPolicy) (path : Text) (ms : Dict (Manager D)) (w : W)
      → AllReady ms
      → AllReady (resolve_secret drv dispatch op policy path (ms, w)).1.0
  unfolding resolve_secret secret_manager
  resolve_secret-AllReady policy path ms w k = elim (Result-cases (parse_ref path)) [
    | inr (e, bad) ↦ rw (bad, resolve_secret) k
    | inl ((vault, addr), good) ↦
        rw (good, resolve_secret)
          (manager_of-AllReady policy addr ms w (definition_at drv dispatch op w vault) k)
  ]

  -- A Manager that is returned is in the cache.
  abbrev Caches : Text → Result (Manager D) × (Dict (Manager D) × W) → Type 0
  Caches name c = (m : Manager D) → c.0 ≡ ok m → (n : Manager D) × (lookup name c.1.0 ≡ some n)

  kept_as-Caches :
      (name : Text) (ms : Dict (Manager D)) (r : Result (Unit {0}) × (Manager D × W))
      → Caches name (kept_as drv dispatch op name ms r)
  kept_as-Caches name ms (ok u, (m, w)) n e = (m, lookup-insert_self name m ms)
  kept_as-Caches name ms (err e, (m, w)) n f = absurd (err_ne_ok f)

  unlocking-Caches :
      (name : Text) (ms : Dict (Manager D)) (w : W) (r : Result (Unit {0}) × Manager D)
      → Caches name (unlocking drv dispatch op name ms w r)
  unlocking-Caches name ms w (ok u, m) n f = kept_as-Caches name ms _ n f
  unlocking-Caches name ms w (err e, m) n f = absurd (err_ne_ok f)

  open_new-Caches :
      (name : Text) (ms : Dict (Manager D)) (w : W) (r : Result (D × Dict Yaml))
      → Caches name (open_new drv dispatch op name (ms, w) r)
  open_new-Caches name ms w (ok (d, config)) n f = unlocking-Caches name ms w _ n f
  open_new-Caches name ms w (err e) n f = absurd (err_ne_ok f)

  cached_or-Caches :
      (policy : SecretPolicy) (name : Text) (conf : VaultConf) (ms : Dict (Manager D)) (w : W)
      → Caches name (cached_or drv dispatch op policy name conf (ms, w) (lookup name ms))
  cached_or-Caches policy name conf ms w = elim (Option-cases (lookup name ms)) [
    | inr (m, found) ↦ rw found (λ n e. (m, found))
    | inl new ↦ rw new (open_new-Caches name ms w (driver_for drv dispatch op policy w name conf))
  ]

  put_back-found :
      (name : Text) (m : Manager D) (ms : Dict (Manager D))
      → (n : Manager D) × (lookup name ms ≡ some n)
      → lookup name (put_back drv dispatch op name m ms) ≡ some m
  put_back-found name m ms (n, there) = rw (there, put_back) (lookup-insert_self name m ms)

  -- A success leaves the vault in the cache.
  get_from-keeps :
      (addr name value : Text) (c : Result (Manager D) × (Dict (Manager D) × W))
      → Caches name c
      → (get_from drv dispatch op addr (c.0 >>= λ m. ok (name, m), c.1)).0 ≡ ok value
      → (m : Manager D) × (lookup name
            (get_from drv dispatch op addr (c.0 >>= λ m. ok (name, m), c.1)).1.0
          ≡ some m)
  get_from-keeps addr name value (ok m, (ms, w)) k h =
      let changed = (Manager.get drv addr m).1 in
      (changed, put_back-found name changed ms (k m refl))
  get_from-keeps addr name value (err e, (ms, w)) k h = absurd (err_ne_ok h)

  resolved :
      (policy : SecretPolicy) (path : Text) (ms : Dict (Manager D)) (w : W) (vault addr name : Text)
      (conf : VaultConf)
      → parse_ref path ≡ ok (vault, addr)
      → definition_at drv dispatch op w vault ≡ ok (name, conf)
      → resolve_secret drv dispatch op policy path (ms, w)
        ≡ get_from drv dispatch op addr
            (manager_of drv dispatch op policy (ms, w) (ok (name, conf)))
  unfolding resolve_secret secret_manager
  resolved policy path ms w vault addr name conf a b =
      rw (a, resolve_secret)
        (ap (λ r. get_from drv dispatch op addr (manager_of drv dispatch op policy (ms, w) r)) b)

  -- A vault of the cache is not unlocked.
  cached-quiet :
      (policy : SecretPolicy) (path : Text) (ms : Dict (Manager D)) (w : W) (vault addr name : Text)
      (conf : VaultConf) (m : Manager D)
      → parse_ref path ≡ ok (vault, addr)
      → definition_at drv dispatch op w vault ≡ ok (name, conf)
      → lookup name ms ≡ some m
      → (resolve_secret drv dispatch op policy path (ms, w)).1.1 ≡ w
  cached-quiet policy path ms w vault addr name conf m a b found =
      ap (λ r. r.1.1) (resolved policy path ms w vault addr name conf a b)
      ∙ ap
          (λ o.
            let (r, s) = cached_or drv dispatch op policy name conf (ms, w) o in
            (get_from drv dispatch op addr (r >>= λ n. ok (name, n), s)).1.1)
          found

  -- Once a reference to a vault has been resolved, the resolution of a reference to a vault of the same
  -- effective name prompts for nothing, fails or not: the world of the prompter is left as it is.
  pub resolve_secret-once :
      (policy : SecretPolicy) (path again : Text) (ms : Dict (Manager D)) (w : W)
      (vault addr vault' addr' name value : Text) (conf conf' : VaultConf)
      → parse_ref path ≡ ok (vault, addr)
      → definition_at drv dispatch op w vault ≡ ok (name, conf)
      → (resolve_secret drv dispatch op policy path (ms, w)).0 ≡ ok value
      → parse_ref again ≡ ok (vault', addr')
      → definition_at drv dispatch op
          (resolve_secret drv dispatch op policy path (ms, w)).1.1
          vault'
        ≡ ok (name, conf')
      → (resolve_secret drv dispatch op policy again
          (resolve_secret drv dispatch op policy path (ms, w)).1).1.1
        ≡ (resolve_secret drv dispatch op policy path (ms, w)).1.1
  resolve_secret-once policy path again ms w vault addr vault' addr' name value conf conf' a b c d
        e =
      let run = resolved policy path ms w vault addr name conf a b in
      let (m, kept) =
        get_from-keeps addr name value
          (cached_or drv dispatch op policy name conf (ms, w) (lookup name ms))
          (cached_or-Caches policy name conf ms w) (sym (ap (λ r. r.0) run) ∙ c) in
      cached-quiet policy again (resolve_secret drv dispatch op policy path (ms, w)).1.0
        (resolve_secret drv dispatch op policy path (ms, w)).1.1 vault' addr' name conf' m d e
        (ap (λ r. lookup name r.1.0) run ∙ kept)
