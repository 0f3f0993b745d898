-- ===== src/Command.antt =====
-- flexcli/app.go and flexcli/secret.go: the options of an App, the choice of a vault, and the way in
-- which the commands reach an agent. A `Shell` is what a command reads and changes; its `agents` are
-- the processes that were started for an identity, of which one that was stopped takes no
-- connection. Nothing else stops an agent while a command runs.
pub mod Actions
pub mod Listing
pub mod Consent
pub mod Overriding
pub mod App
use go_flexconf.Manager
use go_flexconf.Manager.{Manager, new_manager, default_retries}
use go_flexconf.Vaults
use go_flexconf.Vaults.{Registry, VaultConf, Yaml, vault_id_of}
use go_flexconf.Secret.{Operator, registry_at, build_driver}
use go_flexconf.Agent.Server.{Server}
use go_flexconf.Agent.Proxy.{Proxy, new_proxy, proxy}
use go_flexconf.Agent.Wire.{Codec, Request, Response}
use go_flexconf.Driver.{VaultDriver}
use go_flexconf.Prompt.{Answers, PromptRequest}
use go_flexconf.Action.{Action}
use go_flexconf.Dict.{Dict, lookup, insert}
use go_flexconf.Text.{Text, text, text_eq}
use go_flexconf.Errors.{Error, Result, ok, err, wraps, plain, locked, ◌>>=◌}
use go_flexconf.Base.Int.{ℤ, pos}
use go_flexconf.Base.{
  Bool, List, Option, [], ◌∷◌, ◌++◌, true, false, none, some, if◌then◌else◌, is_empty, map, not, ℕ,
  ◌+◌, ◌&&◌, ◌||◌, ◌==◌, leb,
}

-- Options, but for the prompter; a duration is in nanoseconds.
pub record Options : Type 0 where
  pub default_vault : Text
  pub vault_id : Text
  pub idle_timeout : ℤ

abbrev pub timed : Options → Option ℤ → Result Options
timed opts none = err plain
timed opts (some d) = ok (record opts { idle_timeout = d })

-- GlobalOptions, over os.Getenv and time.ParseDuration
unfoldable pub global_options : (Text → Text) → (Text → Option ℤ) → Result Options
global_options getenv duration =
    let opts : Options = record {
      default_vault = getenv (text "FLEXCONF_VAULT");
      vault_id = [];
      idle_timeout = pos 0;
    } in
    let idle = getenv (text "FLEXCONF_IDLE_TIMEOUT") in
    if is_empty idle then ok opts else timed opts (duration idle)

-- The flags of a command.
pub record Flags : Type 0 where
  pub vault : Text
  pub no_unlock : Bool
  pub force_unlock : Bool

-- ExitCode
abbrev pub exit_code : {A : Type 0} → Result A → ℕ
exit_code (ok a) = 0
exit_code (err (wraps locked)) = 3
exit_code (err e) = 1

-- One letter of strings.EqualFold, for the letters of `y` and `yes`.
abbrev fold_letter : ℕ → ℕ
fold_letter c = if leb b'A' c && leb c b'Z' then c + 32 else if c == 0x17f then b's' else c

abbrev pub is_yes : Text → Bool
is_yes answer =
    let folded = map fold_letter answer in text_eq folded (text "y") || text_eq folded (text "yes")

-- `broken_input` says that reading the input fails, and `later` is what can be read after its end,
-- as from a terminal.
pub record Shell (D W : Type 0) : Type 0 where
  pub input : Text
  pub later : Text
  pub broken_input : Bool
  pub output : Text
  pub messages : Text
  pub agents : Dict (Server D)
  pub world : W

-- What is outside of the sources: FLEXCONF_VAULT, the digest of a definition, whether the process's
-- input is a terminal, fmt.Fscanln with what it leaves, and the start of a process.
pub record Environment (D : Type 0) : Type 0 where
  pub vault : Text
  pub digest : Dict Yaml → Text
  pub is_terminal : Bool
  pub scan : Text → Text × Text
  pub spawn : Text → Text → Result (Server D)
  pub now : ℕ

abbrev pub serving : {D : Type 0} → Option (Server D) → Option (Server D)
serving none = none
serving (some s) = if s.stopped then none else some s

-- Dial: an agent that was stopped has closed its socket.
unfoldable pub dial : {D : Type 0} → Text → Dict (Server D) → Option (Server D)
unfolding lookup
dial id agents = serving (lookup id agents)

abbrev pub put_agent : {D : Type 0} → Text → Option (Server D) → Dict (Server D) → Dict (Server D)
put_agent id none agents = agents
put_agent id (some s) agents = insert id s agents

abbrev pub prints : {D W : Type 0} → Text → Shell D W → Shell D W
prints s sh = record sh { output = sh.output ++ s }

module _ {C D W : Type 0} (drv : VaultDriver C D) (requests : Codec Request)
    (responses : Codec Response) (dispatch : List PromptRequest → Action W Answers)
    (op : Operator C D W) (env : Environment D) (opts : Options) where
  abbrev pub requested_vault : Text → Text
  requested_vault flag =
      let requested = if is_empty flag then env.vault else flag in
      if is_empty requested then opts.default_vault else requested

  abbrev pub Selected : Type 0
  Selected = Text × (VaultConf × Text)

  abbrev pub identified : Text × VaultConf → Result Selected
  identified (name, conf) = ok (
    name,
    (conf, if is_empty opts.vault_id then vault_id_of env.digest name conf else opts.vault_id),
  )

  -- selectVault: a name, its definition and the identity of its agent
  unfoldable pub select_vault : Text → W → Result Selected
  unfolding Vaults.load Vaults.resolve vault_id_of
  select_vault flag w = registry_at drv dispatch op w >>= λ reg.
      Vaults.resolve (requested_vault flag) reg >>= identified

  -- The proxy driver, over the agents that take connections.
  abbrev pub proxied : VaultDriver C (Proxy D)
  proxied = proxy drv requests responses true env.spawn (λ s. not s.stopped) env.now

  -- agent.NewProxy
  abbrev proxy_of : Dict (Server D) → Text × VaultConf → Result (Proxy D)
  proxy_of agents (name, conf) =
      let id = vault_id_of env.digest name conf in
      build_driver drv dispatch op conf >>= λ d. ok (new_proxy name id d (dial id agents))

  unfoldable pub proxy_at : Text → Shell D W → Result (Proxy D)
  unfolding Vaults.load Vaults.resolve build_driver vault_id_of dial
  proxy_at name sh =
      registry_at drv dispatch op sh.world >>= λ reg. Vaults.resolve name reg >>= proxy_of sh.agents

  -- What the Manager over the proxy leaves: the agent that it reached, and the prompter's world.
  abbrev pub settled :
      Shell D W → Result (Unit {0}) × (Manager (Proxy D) × W) → Result (Unit {0}) × Shell D W
  settled sh (r, (m, w)) =
      (r, record sh { agents = put_agent m.driver.vault_id m.driver.server sh.agents; world = w })

  abbrev pub unlock_by : Shell D W → Result (Proxy D) → Result (Unit {0}) × Shell D W
  unlock_by sh (err e) = (err e, sh)
  unlock_by sh (ok p) =
      settled sh (
        Manager.open_vault proxied dispatch (op.decode [])
          (new_manager p default_retries, sh.world))

  -- unlockAgent; the identity that was selected is not passed on
  unfoldable pub unlock_agent : Text → Action (Shell D W) (Unit {0})
  unfolding proxy_at Manager.open_vault insert
  unlock_agent name sh = unlock_by sh (proxy_at name sh)

  -- The question whether to unlock, and its answer.
  abbrev question : Text
  question = text "Vault is locked. Unlock now? [y/N] "

  unfoldable pub permission : Flags → Shell D W → Bool × Shell D W
  unfolding text_eq
  permission flags sh =
      let (answer, rest) = env.scan sh.input in
      if flags.force_unlock
      then (true, sh)
      else if not flags.no_unlock && env.is_terminal
      then (is_yes answer, record sh { messages = sh.messages ++ question; input = rest })
      else (false, sh)

  abbrev pub dialed : Text → Shell D W → Option (Server D) → Result Text × Shell D W
  dialed id sh none = (err plain, sh)
  dialed id sh (some s) = (ok id, sh)

  abbrev pub retried : Text → Result (Unit {0}) × Shell D W → Result Text × Shell D W
  retried id (err e, sh) = (err e, sh)
  retried id (ok u, sh) = dialed id sh (dial id sh.agents)

  abbrev pub permitted : Text → Text → Bool × Shell D W → Result Text × Shell D W
  permitted name id (false, sh) = (err (wraps locked), sh)
  permitted name id (true, sh) = retried id (unlock_agent name sh)

  abbrev pub reach : Flags → Shell D W → Text → Text → Option (Server D) → Result Text × Shell D W
  reach flags sh name id (some s) = (ok id, sh)
  reach flags sh name id none = permitted name id (permission flags sh)

  abbrev pub with_selected : Flags → Shell D W → Result Selected → Result Text × Shell D W
  with_selected flags sh (err e) = (err e, sh)
  with_selected flags sh (ok (name, (conf, id))) = reach flags sh name id (dial id sh.agents)

  -- withAgent: the identity of an agent that takes connections
  unfoldable pub with_agent : Flags → Action (Shell D W) Text
  unfolding select_vault permission unlock_agent dial
  with_agent flags sh = with_selected flags sh (select_vault flags.vault sh.world)
