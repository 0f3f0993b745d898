-- ===== src/Tests/Secrets.antt =====
-- A Loader over one vault, in its own process; the world counts the prompts.
use go_flexconf.Secret.{
  Operator, policy_in_process, resolve_secret, definition_at, close, close_all,
}
use go_flexconf.Secret.Cache.{resolve_secret-once, resolve_secret-AllReady, AllReady}
use go_flexconf.Manager.{Manager}
use go_flexconf.Vaults
use go_flexconf.Vaults.{
  Contents, Paths, RegistryFile, VaultConf, Yaml, string_value, parsed, parse_ref,
}
use go_flexconf.Driver.{VaultDriver}
use go_flexconf.Prompt.{Answers, PromptRequest}
use go_flexconf.Base.{
  Bool, List, [], false, if◌then◌else◌, none, refl, some, true, ℕ, ◌++◌, ◌+◌, ◌∷◌, ◌≡◌,
}
use go_flexconf.Dict.{Dict}
use go_flexconf.Errors.{Result, err, ok, wraps, locked, read_only}
use go_flexconf.Text.{Text, text}
use go_flexconf.Address.{parse_address}

-- A driver that is open or not and has one value.
abbrev pub toy : VaultDriver (Dict Yaml) Bool
toy = record {
  configure = λ c d. (ok tt, d);
  credentials = λ d. [];
  unlock = λ answers d. (ok tt, true);
  capabilities = λ d. record { writable = false; creatable = false };
  get = λ addr d. ((if d then ok (text "pw") else err (wraps locked)), d);
  set = λ addr value d. (err (wraps read_only), d);
  list = λ ns d. (ok [], d);
  lock = λ d. (ok tt, false);
  initializer = none;
}

abbrev pub counted : List PromptRequest → ℕ → Result Answers × ℕ
counted reqs n = (ok [], n + 1)

abbrev pub operator : Operator (Dict Yaml) Bool ℕ
operator = record {
  paths = record {
    home = some (text "/home/u");
    join = λ a b. a ++ text "/" ++ b;
    dir = λ p. text "/etc";
    is_abs = λ p. true;
  };
  contents = λ w p. parsed (record {
    default_vault = text "ops";
    vaults = (text "ops", (text "driver", string_value (text "toy")) ∷ []) ∷ [];
  });
  env = some (text "vaults.yaml" ∷ []);
  well_known = [];
  drivers = (text "toy", false) ∷ [];
  decode = λ config. config;
  proxy_for = λ name conf d. d;
}

abbrev pub ops_conf : VaultConf
ops_conf = record { driver = text "toy"; config = []; source = text "vaults.yaml"; overrode = [] }

default_is_ops : definition_at toy counted operator 0 [] ≡ ok (text "ops", ops_conf)
unfolding Vaults.load Vaults.resolve
default_is_ops = refl

abbrev first_run : Result Text × (Dict (Manager Bool) × ℕ)
unfolding resolve_secret
first_run = resolve_secret toy counted operator policy_in_process (text "db/pw") ([], 0)

first_prompts :
    ((resolve_secret toy counted operator policy_in_process (text "db/pw") ([], 0)).0
      ≡ ok (text "pw"))
    × ((resolve_secret toy counted operator policy_in_process (text "db/pw") ([], 0)).1.1 ≡ 1)
unfolding resolve_secret go_flexconf.Address.parse_address
first_prompts = (refl, refl)

ops_is_ops :
    definition_at toy counted operator
      (resolve_secret toy counted operator policy_in_process (text "db/pw") ([], 0)).1.1
      (text "ops")
    ≡ ok (text "ops", ops_conf)
unfolding resolve_secret Vaults.load Vaults.resolve
ops_is_ops = refl

split_default : parse_ref (text "db/pw") ≡ ok ([], text "db/pw")
unfolding parse_ref
split_default = refl

split_named : parse_ref (text "ops:db/user") ≡ ok (text "ops", text "db/user")
unfolding parse_ref
split_named = refl

resolve_secret-once_example :
    (resolve_secret toy counted operator policy_in_process
      (text "ops:db/user")
      (resolve_secret toy counted operator policy_in_process (text "db/pw") ([], 0)).1).1.1
    ≡ (resolve_secret toy counted operator policy_in_process (text "db/pw") ([], 0)).1.1
resolve_secret-once_example =
    resolve_secret-once toy counted operator policy_in_process (text "db/pw") (text "ops:db/user")
      [] 0 [] (text "db/pw") (text "ops") (text "db/user") (text "ops") (text "pw") ops_conf
      ops_conf split_default default_is_ops first_prompts.0 split_named ops_is_ops

resolve_secret-AllReady_example :
    AllReady toy counted operator
      (resolve_secret toy counted operator policy_in_process (text "db/pw") ([], 0)).1.0
resolve_secret-AllReady_example =
    resolve_secret-AllReady toy counted operator policy_in_process (text "db/pw") [] 0 tt

close_empties : close toy counted operator first_run.1.0 ≡ (ok tt, [])
unfolding close_all resolve_secret
close_empties = refl
