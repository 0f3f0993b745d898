-- ===== src/Command/App.antt =====
-- flexcli/app.go and internal/agent/spawn.go: an App as the agent that its own process may be, with
-- the environment that the agent reads. `show` is time.Duration's String.
use go_flexconf.Command.{Options}
use go_flexconf.Agent.Starting.{Role, run_agent_if_requested}
use go_flexconf.Agent.Process.{idle_timeout}
use go_flexconf.Errors.{Result}
use go_flexconf.Text.{Text, text, text_eq}
use go_flexconf.Base.Int.{ℤ, pos, negsuc}
use go_flexconf.Base.{Bool, Option, if◌then◌else◌, not, none, some, true, false, zero, suc}

-- os.Getenv after os.Setenv
abbrev pub set_env : Text → Text → (Text → Text) → Text → Text
set_env key value getenv k = if text_eq k key then value else getenv k

abbrev pub is_zero : ℤ → Bool
is_zero (pos zero) = true
is_zero (pos (suc n)) = false
is_zero (negsuc n) = false

-- The environment that App.RunAgentIfRequested leaves
unfoldable pub agent_environment : (ℤ → Text) → Options → (Text → Text) → Text → Text
unfolding text_eq
agent_environment show opts getenv =
    if not (is_zero opts.idle_timeout)
    then set_env (text "FLEXCONF_IDLE_TIMEOUT") (show opts.idle_timeout) getenv
    else getenv

-- App.RunAgentIfRequested, over the outcome of Serve for an identity and a name in an environment
unfoldable pub app_run_agent :
    (ℤ → Text) → (Text → Text → (Text → Text) → Result (Unit {0})) → Options → (Text → Text) → Role
unfolding agent_environment run_agent_if_requested
app_run_agent show serve opts getenv =
    let env = agent_environment show opts getenv in
    let vault_id = env (text "FLEXCLI_AGENT") in
    run_agent_if_requested vault_id (serve vault_id (env (text "FLEXCLI_AGENT_VAULT")) env)

-- App.prompter
abbrev pub app_prompter : {P : Type 0} → Option P → P → P
app_prompter (some own) cli = own
app_prompter none cli = cli

abbrev idle_name : Text
idle_name = text "FLEXCONF_IDLE_TIMEOUT"
