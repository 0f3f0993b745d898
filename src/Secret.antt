-- ===== src/Secret.antt =====
-- flexconf/secret.go: the resolution of `secret:` references over vaults that a Loader unlocks once and
-- keeps. `D` is any driver's value, `W` the world of the prompter and of the operator's files. The
-- mutex makes a resolution one step.
pub mod Cache
use go_flexconf.Manager
use go_flexconf.Manager.{Manager, new_manager, default_retries}
use go_flexconf.Vaults
use go_flexconf.Vaults.{Contents, Paths, Registry, VaultConf, Yaml, parse_ref}
use go_flexconf.Driver.{VaultDriver}
use go_flexconf.Driver.Registered.{new_driver}
use go_flexconf.Prompt.{Answers, PromptRequest}
use go_flexconf.Action.{Action}
use go_flexconf.Dict.{Dict, lookup, insert}
use go_flexconf.Errors.{Error, Result, ok, err, plain, ◌>>=◌}
use go_flexconf.Text.{Text}
use go_flexconf.Base.{Bool, List, Option, [], ◌∷◌, false, true, none, some, ℕ}

pub data SecretPolicy : Type 0 where
  policy_agent policy_in_process : SecretPolicy

-- Where the operator's registry files are and what they hold, the drivers with their decoder, and the
-- proxy driver's value for a vault and its real driver.
pub record Operator (C D W : Type 0) : Type 0 where
  pub paths : Paths
  pub contents : W → Text → Contents
  pub env : Option (List Text)
  pub well_known : Text
  pub drivers : Dict D
  pub decode : Dict Yaml → C
  pub proxy_for : Text → VaultConf → D → D

module _ {C D W : Type 0} (drv : VaultDriver C D) (dispatch : List PromptRequest → Action W Answers)
    (op : Operator C D W) where
  -- The managers of secretState.
  abbrev pub Cached : Type 0
  Cached = Dict (Manager D)

  -- vaultreg.Load
  abbrev pub registry_at : W → Result Registry
  registry_at w = Vaults.load op.paths (op.contents w) op.env op.well_known

  -- The effective name and the definition of a vault.
  abbrev pub definition_at : W → Text → Result (Text × VaultConf)
  definition_at w name = registry_at w >>= λ reg. Vaults.resolve name reg

  abbrev pub built : Result (Unit {0}) × D → Result D
  built (ok u, d) = ok d
  built (err e, d) = err e

  -- BuildDriver
  unfoldable pub build_driver : VaultConf → Result D
  unfolding new_driver
  build_driver conf =
      new_driver conf.driver op.drivers >>= λ d. built (drv.configure (op.decode conf.config) d)

  -- agent.NewProxy
  unfoldable pub proxy_driver : W → Text → Result D
  unfolding build_driver Vaults.load Vaults.resolve
  proxy_driver w name =
      definition_at w name >>= λ (n, conf). build_driver conf >>= λ d. ok (op.proxy_for n conf d)

  -- The driver that the policy asks for, and what its Manager decodes.
  abbrev pub driver_for : SecretPolicy → W → Text → VaultConf → Result (D × Dict Yaml)
  driver_for policy_in_process w name conf = build_driver conf >>= λ d. ok (d, conf.config)
  driver_for policy_agent w name conf = proxy_driver w name >>= λ d. ok (d, [])

  abbrev pub State : Type 0
  State = Cached × W

  -- A Manager that was unlocked goes to the cache.
  abbrev pub kept_as :
      Text → Cached → Result (Unit {0}) × (Manager D × W) → Result (Manager D) × State
  kept_as name ms (ok u, (m, w)) = (ok m, (insert name m ms, w))
  kept_as name ms (err e, (m, w)) = (err e, (ms, w))

  abbrev pub unlocking :
      Text → Cached → W → Result (Unit {0}) × Manager D → Result (Manager D) × State
  unlocking name ms w (ok u, m) = kept_as name ms (Manager.unlock drv dispatch (m, w))
  unlocking name ms w (err e, m) = (err e, (ms, w))

  abbrev pub open_new : Text → State → Result (D × Dict Yaml) → Result (Manager D) × State
  open_new name (ms, w) (err e) = (err e, (ms, w))
  open_new name (ms, w) (ok (d, config)) =
      unlocking name ms w
        (Manager.configure drv dispatch (op.decode config) (new_manager d default_retries))

  abbrev pub cached_or :
      SecretPolicy → Text → VaultConf → State → Option (Manager D) → Result (Manager D) × State
  cached_or policy name conf s (some m) = (ok m, s)
  cached_or policy name conf (ms, w) none = open_new name (ms, w) (driver_for policy w name conf)

  abbrev pub manager_of :
      SecretPolicy → State → Result (Text × VaultConf) → Result (Text × Manager D) × State
  manager_of policy s (err e) = (err e, s)
  manager_of policy (ms, w) (ok (name, conf)) =
      let (r, s) = cached_or policy name conf (ms, w) (lookup name ms) in
      (r >>= λ m. ok (name, m), s)

  -- secretManager; its result has the effective name.
  unfoldable pub secret_manager : SecretPolicy → Text → State → Result (Text × Manager D) × State
  unfolding lookup insert Vaults.load Vaults.resolve build_driver proxy_driver Manager.unlock
      Manager.configure
  secret_manager policy vault (ms, w) = manager_of policy (ms, w) (definition_at w vault)

  -- A Manager of the cache changes in place.
  abbrev pub put_back : Text → Manager D → Cached → Cached
  put_back name m ms = elim (lookup name ms) [ none ↦ ms | some old ↦ insert name m ms ]

  -- The access, which changes the Manager.
  abbrev pub got : Text → State → Result Text × Manager D → Result Text × State
  got name (ms, w) (r, m) = (r, (put_back name m ms, w))

  abbrev pub get_from : Text → Result (Text × Manager D) × State → Result Text × State
  get_from addr (err e, s) = (err e, s)
  get_from addr (ok (name, m), s) = got name s (Manager.get drv addr m)

  abbrev pub resolve_ref : SecretPolicy → State → Result (Text × Text) → Result Text × State
  resolve_ref policy s (err e) = (err e, s)
  resolve_ref policy s (ok (vault, addr)) = get_from addr (secret_manager policy vault s)

  -- resolveSecret
  unfoldable pub resolve_secret : SecretPolicy → Text → State → Result Text × State
  unfolding parse_ref secret_manager Manager.get insert
  resolve_secret policy path s = resolve_ref policy s (parse_ref path)

  abbrev pub first_error : Result (Unit {0}) → Result (Unit {0}) → Result (Unit {0})
  first_error (err e) r = err e
  first_error (ok u) r = r

  -- The loop of Close over the managers, which are locked and removed.
  unfoldable pub close_all : Result (Unit {0}) → Cached → Result (Unit {0})
  unfolding Manager.lock
  close_all first [] = first
  close_all first ((name, m) ∷ ms) = close_all (first_error first (Manager.lock drv m).0) ms

  -- Close
  abbrev pub close : Cached → Result (Unit {0}) × Cached
  close ms = (close_all (ok tt) ms, [])
