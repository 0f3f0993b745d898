-- ===== src/Command/Actions/Serving.antt =====
-- What the commands print of an agent that runs.
use go_flexconf.Command.{
  Shell, Flags, Options, Environment, dial, select_vault, with_agent, exit_code, prints, serving,
}
use go_flexconf.Command.Actions.{get_cmd, unlock_cmd, line, served}
use go_flexconf.Agent.Client.Transparent.{Sendable, crossed, client_get-transparent}
use go_flexconf.Agent.Server.{Server, serve_request}
use go_flexconf.Agent.Client.{client_get}
use go_flexconf.Agent.Wire.{Codec, Request, Response, get_request}
use go_flexconf.Driver.{VaultDriver}
use go_flexconf.Prompt.{Answers, PromptRequest}
use go_flexconf.Action.{Action}
use go_flexconf.Secret.{Operator}
use go_flexconf.Address.{parse_address}
use go_flexconf.Vaults.{VaultConf}
use go_flexconf.Manager
use go_flexconf.Manager.{Manager}
use go_flexconf.Dict.{Dict, lookup}
use go_flexconf.Text.{Text, text}
use go_flexconf.Base.{
  Bool, List, [], append-nil, false, if◌then◌else◌, none, refl, some, subst, sym, true, ◌++◌, ◌≡◌,
  ap, ◌∙◌, Option,
}
use go_flexconf.Errors.{Result, err, ok, wraps, locked}
use go_flexconf.Agent.Proxy.Transparent.{after}

unless_stopped :
    {A : Type 0} (b : Bool) (a : A) {o : A}
    → (if b then none else some a) ≡ some o
    → some a ≡ some o
unless_stopped true a h = cc
unless_stopped false a h = h

serving-some : {D : Type 0} (o : Option (Server D)) {s : Server D} → serving o ≡ some s → o ≡ some s
serving-some none h = cc
serving-some (some t) h = unless_stopped t.stopped t h

pub dial-lookup :
    {D : Type 0} (id : Text) (agents : Dict (Server D)) {s : Server D}
    → dial id agents ≡ some s
    → lookup id agents ≡ some s
unfolding dial
dial-lookup id agents h = serving-some (lookup id agents) h

-- What is printed of a secret.
abbrev pub shown : Bool → Result Text → Text
shown raw (err e) = []
shown raw (ok value) = if raw then value else line value

abbrev pub done : {A : Type 0} → Result A → Result (Unit {0})
done (err e) = err e
done (ok a) = ok tt

module _ {C D W : Type 0} (drv : VaultDriver C D) (requests : Codec Request)
    (responses : Codec Response) (dispatch : List PromptRequest → Action W Answers)
    (op : Operator C D W) (env : Environment D) (opts : Options) where
  -- The outcome of `get` and what it adds to the output.
  abbrev pub Prints : Bool → Result Text → Shell D W → Result (Unit {0}) × Shell D W → Type 0
  Prints raw r sh d =
      (d.0 ≡ done r) × (d.1.output ≡ sh.output ++ shown raw r) × (d.1.world ≡ sh.world)

  served-Prints :
      (raw : Bool) (id : Text) (sh : Shell D W) (r : Result Text × Server D)
      → Prints raw r.0 sh (
          served drv requests responses dispatch op env opts id
            (λ value. prints (if raw then value else line value))
            sh
            r)
  served-Prints raw id sh (err e, s) = (refl, sym (append-nil sh.output), refl)
  served-Prints raw id sh (ok value, s) = (refl, refl, refl)

  -- With an agent for the vault that is selected, `get` of a valid address ends as `Get` of the
  -- Manager in the agent does, with the vault sentinel of an error, adds the value and nothing else
  -- to the output, with `--raw` as it is stored and else with a line end, and leaves the world as it
  -- was, if the two messages can be sent.
  pub get_cmd-transparent :
      (raw : Bool) (flags : Flags) (sh : Shell D W) (name : Text) (conf : VaultConf) (id : Text)
      (s : Server D) (addr : Text) {namespace key : Text}
      → select_vault drv requests responses dispatch op env opts flags.vault sh.world
        ≡ ok (name, (conf, id))
      → dial id sh.agents ≡ some s
      → parse_address addr ≡ ok (namespace, key)
      → Sendable requests (get_request addr)
      → Sendable responses (serve_request drv env.now (get_request addr) s).0
      → Prints raw
          (crossed (Manager.get drv addr s.manager).0)
          sh
          (get_cmd drv requests responses dispatch op env opts raw flags addr sh)
  unfolding get_cmd with_agent
  get_cmd-transparent raw flags sh name conf id s addr chosen running valid p q =
      let there = dial-lookup id sh.agents running in
      let (same, after) = client_get-transparent drv requests responses env.now addr s p q in
      rw (valid, chosen, running, there)
        (subst
          (λ r. Prints raw r sh (
            served drv requests responses dispatch op env opts id
              (λ value. prints (if raw then value else line value)) sh
              (client_get drv requests responses env.now addr s)))
          same (served-Prints raw id sh (client_get drv requests responses env.now addr s)))

  -- `unlock` without `--force` succeeds for an agent that runs with a configured Manager whose vault
  -- is locked, and changes no agent; `get` of a valid address after it exits with code 3, if the two
  -- messages of that `get` can be sent.
  pub unlock_cmd_running :
      (raw : Bool) (flags : Flags) (sh : Shell D W) (name : Text) (conf : VaultConf) (id : Text)
      (s : Server D) (addr : Text) {namespace key : Text}
      → select_vault drv requests responses dispatch op env opts flags.vault sh.world
        ≡ ok (name, (conf, id))
      → dial id sh.agents ≡ some s
      → s.manager.configured ≡ true
      → s.manager.unlocked ≡ false
      → parse_address addr ≡ ok (namespace, key)
      → Sendable requests (get_request addr)
      → Sendable responses (serve_request drv env.now (get_request addr) s).0
      → let (r, after) = unlock_cmd drv requests responses dispatch op env opts false flags sh in
        (r ≡ ok tt)
        × (after.agents ≡ sh.agents)
        × (exit_code (get_cmd drv requests responses dispatch op env opts raw flags addr after).0
            ≡ 3)
  unfolding unlock_cmd Manager.get Manager.guard
  unlock_cmd_running raw flags sh name conf id s addr chosen running ready closed valid p q =
      let said = prints (line (text "already unlocked")) sh in
      let done_so : unlock_cmd drv requests responses dispatch op env opts false flags sh
          ≡ (ok tt, said) =
        rw (chosen, running) refl in
      let out = get_cmd-transparent raw flags said name conf id s addr chosen running valid p q in
      let refused : Manager.get drv addr s.manager ≡ (err (wraps locked), s.manager) =
        rw (ready, closed) refl in
      rw done_so (refl, refl, ap (λ r. exit_code r) out.0 ∙ (rw refused refl))
