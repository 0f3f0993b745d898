-- ===== src/Tests/Options.antt =====
-- The idle timeout of an agent that an App becomes.
use go_flexconf.Command.{Options}
use go_flexconf.Command.App.{agent_environment, app_run_agent}
use go_flexconf.Agent.Starting.{exits, goes_on}
use go_flexconf.Agent.Process.{idle_timeout}
use go_flexconf.Text.{Text, text, text_eq}
use go_flexconf.Base.Int.{ℤ, pos, negsuc}
use go_flexconf.Base.{Option, [], if◌then◌else◌, none, some, refl, ◌∷◌, ◌≡◌}
use go_flexconf.Errors.{ok, err, plain}

-- Texts that stand for durations.
abbrev duration_text : ℤ → Text
duration_text (pos n) = n ∷ []
duration_text (negsuc n) = 2 ∷ n ∷ []

abbrev read_duration : Text → Option ℤ
read_duration (n ∷ []) = some (pos n)
read_duration (k ∷ n ∷ []) = some (negsuc n)
read_duration _ = none

abbrev getenv : Text → Text
getenv k =
    if text_eq k (text "FLEXCONF_IDLE_TIMEOUT")
    then 30000000000 ∷ []
    else if text_eq k (text "FLEXCLI_AGENT")
    then text "ops-0"
    else []

abbrev half_minute : Options
half_minute = record { default_vault = []; vault_id = []; idle_timeout = pos 30000000000 }

-- A timeout of the options that is not zero is put in the place of what the environment says.
options_win :
    agent_environment duration_text
      (record half_minute { idle_timeout = pos 7 })
      getenv
      (text "FLEXCONF_IDLE_TIMEOUT")
    ≡ 7 ∷ []
unfolding agent_environment text_eq
options_win = refl

-- A process that an agent's environment was given to.
runs_and_exits :
    (app_run_agent duration_text (λ id name env. ok tt) half_minute getenv ≡ exits 0)
    × (app_run_agent duration_text (λ id name env. err plain) half_minute getenv ≡ exits 1)
    × (app_run_agent duration_text (λ id name env. ok tt) half_minute (λ k. []) ≡ goes_on)
unfolding app_run_agent text_eq
runs_and_exits = (refl, refl, refl)
