-- ===== src/Command/Consent.antt =====
-- A vault is unlocked by a command only with consent.
use go_flexconf.Command.{
  Shell, Flags, Options, Environment, dial, select_vault, permission, with_agent, is_yes, permitted,
  exit_code,
}
use go_flexconf.Command.{prints}
use go_flexconf.Text.Sorting.{sort_strings}
use go_flexconf.Command.Actions.{line, lines, get_cmd, list_cmd, via}
use go_flexconf.Agent.Server.{Server}
use go_flexconf.Agent.Wire.{Codec, Request, Response}
use go_flexconf.Driver.{VaultDriver}
use go_flexconf.Prompt.{Answers, PromptRequest}
use go_flexconf.Action.{Action}
use go_flexconf.Secret.{Operator}
use go_flexconf.Address.{parse_address}
use go_flexconf.Vaults.{VaultConf}
use go_flexconf.Text.{Text}
use go_flexconf.Base.{
  Bool, List, false, true, ◌≡◌, ◌⊎◌, Bool-cases, arith, inl, inr, none, not, refl, ◌&&◌,
  if◌then◌else◌,
}
use go_flexconf.Errors.{Result, err, ok}
use go_flexconf.Agent.Proxy.Transparent.{after}
use go_flexconf.Agent.Client.{client_get, client_list}

-- The agents, the world and the output are as they were.
abbrev pub Untouched : {D W : Type 0} → Shell D W → Shell D W → Type 0
Untouched sh after =
    (after.agents ≡ sh.agents) × (after.world ≡ sh.world) × (after.output ≡ sh.output)

-- The command fails with the exit code of a locked vault, and changes nothing.
abbrev pub LockedOut : {A D W : Type 0} → Shell D W → Result A × Shell D W → Type 0
LockedOut sh r = (exit_code r.0 ≡ 3) × Untouched sh r.1

-- `--no-unlock`, an input that is no terminal, or an answer that is not yes.
abbrev pub NoConsent : {D W : Type 0} → Environment D → Flags → Shell D W → Type 0
NoConsent env flags sh =
    (flags.no_unlock ≡ true) ⊎ ((env.is_terminal ≡ false) ⊎ (is_yes (env.scan sh.input).0 ≡ false))

ok_exit : {A : Type 0} (a : A) → exit_code (ok a) ≡ 3 → ⊥
ok_exit a h = omega arith

module _ {C D W : Type 0} (drv : VaultDriver C D) (requests : Codec Request)
    (responses : Codec Response) (dispatch : List PromptRequest → Action W Answers)
    (op : Operator C D W) (env : Environment D) (opts : Options) where
  abbrev Denied : Shell D W → Bool × Shell D W → Type 0
  Denied sh (b, after) = (b ≡ false) × Untouched sh after

  refused :
      (flags : Flags) (sh : Shell D W)
      → (not flags.no_unlock && env.is_terminal) ≡ true
      → NoConsent env flags sh
      → is_yes (env.scan sh.input).0 ≡ false
  refused flags sh asks (inl never) = let e : false ≡ true = rw never at asks in cc
  refused flags sh asks (inr (inl piped)) = ground (arith, piped)
  refused flags sh asks (inr (inr no_answer)) = no_answer

  permission-Denied :
      (flags : Flags) (sh : Shell D W)
      → flags.force_unlock ≡ false
      → NoConsent env flags sh
      → Denied sh (permission drv requests responses dispatch op env opts flags sh)
  unfolding permission
  permission-Denied flags sh f h = elim (Bool-cases (not flags.no_unlock && env.is_terminal)) [
    | inr silent ↦ rw (f, silent) (refl, (refl, refl, refl))
    | inl asks ↦ rw (f, asks) (refused flags sh asks h, (refl, refl, refl))
  ]

  permitted-LockedOut :
      (sh : Shell D W) (name id : Text) (r : Bool × Shell D W)
      → Denied sh r
      → LockedOut sh (permitted drv requests responses dispatch op env opts name id r)
  permitted-LockedOut sh name id (true, after) h = cc
  permitted-LockedOut sh name id (false, after) h = (refl, h.1)

  with_agent-LockedOut :
      (flags : Flags) (sh : Shell D W) (name : Text) (conf : VaultConf) (id : Text)
      → select_vault drv requests responses dispatch op env opts flags.vault sh.world
        ≡ ok (name, (conf, id))
      → dial id sh.agents ≡ none
      → flags.force_unlock ≡ false
      → NoConsent env flags sh
      → LockedOut sh (with_agent drv requests responses dispatch op env opts flags sh)
  unfolding with_agent
  with_agent-LockedOut flags sh name conf id chosen absent f h =
      rw (chosen, absent)
        (permitted-LockedOut sh name id
          (permission drv requests responses dispatch op env opts flags sh)
          (permission-Denied flags sh f h))

  via-LockedOut :
      {A : Type 0} (request : Server D → Result A × Server D) (then_do : A → Shell D W → Shell D W)
      (sh : Shell D W) (r : Result Text × Shell D W)
      → LockedOut sh r
      → LockedOut sh (via drv requests responses dispatch op env opts request then_do r)
  via-LockedOut request then_do sh (ok id, after) h = absurd (ok_exit id h.0)
  via-LockedOut request then_do sh (err e, after) h = h

  -- With no agent for the vault that is selected, no `--unlock` and no consent to unlock, `get` of a
  -- valid address and `list` exit with code 3, and leave the agents, the output and the world, in
  -- which the prompter dispatches, as they were.
  pub NoConsent-LockedOut :
      (raw : Bool) (flags : Flags) (sh : Shell D W) (name : Text) (conf : VaultConf) (id : Text)
      (addr ns : Text) {namespace key : Text}
      → select_vault drv requests responses dispatch op env opts flags.vault sh.world
        ≡ ok (name, (conf, id))
      → dial id sh.agents ≡ none
      → flags.force_unlock ≡ false
      → NoConsent env flags sh
      → parse_address addr ≡ ok (namespace, key)
      → LockedOut sh (get_cmd drv requests responses dispatch op env opts raw flags addr sh)
        × LockedOut sh (list_cmd drv requests responses dispatch op env opts flags ns sh)
  unfolding get_cmd list_cmd
  NoConsent-LockedOut raw flags sh name conf id addr ns chosen absent f h valid =
      let out = with_agent-LockedOut flags sh name conf id chosen absent f h in
      let agent = with_agent drv requests responses dispatch op env opts flags sh in
      (
        rw valid (
            via-LockedOut (client_get drv requests responses env.now addr)
              (λ value. prints (if raw then value else line value)) sh agent out),
        via-LockedOut (client_list drv requests responses env.now ns)
            (λ found. prints (lines (sort_strings found))) sh agent out,
      )
