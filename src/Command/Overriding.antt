-- ===== src/Command/Overriding.antt =====
-- An identity that the options give and the proxy does not know.
use go_flexconf.Command.{
  Shell, Flags, Options, Environment, dial, put_agent, select_vault, unlock_agent, unlock_by,
  proxy_at, proxied, settled, permission, with_agent, permitted, retried,
}
use go_flexconf.Manager
use go_flexconf.Manager.{Manager, new_manager, default_retries}
use go_flexconf.Manager.Kept.{open_vault_kept}
use go_flexconf.Agent.Proxy.{Proxy, proxy_unlock, unlock_at, unlock_spawned, forwarded, new_proxy}
use go_flexconf.Agent.Server.{Server}
use go_flexconf.Agent.Wire.{Codec, Request, Response}
use go_flexconf.Driver.{VaultDriver}
use go_flexconf.Prompt.{Answers, PromptRequest}
use go_flexconf.Action.{Action}
use go_flexconf.Secret.{Operator, definition_at, registry_at, build_driver, built}
use go_flexconf.Vaults
use go_flexconf.Vaults.{VaultConf, vault_id_of}
use go_flexconf.Dict.{Dict}
use go_flexconf.Dict.Laws.{lookup-insert}
use go_flexconf.Text.{Text, text_eq}
use go_flexconf.Base.{
  List, not, true, ◌≡◌, Bool-cases, Option, Option-cases, [], false, inl, inr, none, refl, some,
  Bool, ap, both_taken, sym, ◌&&◌, ◌∙◌,
}
use go_flexconf.Errors.{Result, err, ok, >>=-eq-ok, Error, ok_injective, plain, wraps, locked}
use go_flexconf.Agent.Client.{client_unlock}

module _ {C D W : Type 0} (drv : VaultDriver C D) (requests : Codec Request)
    (responses : Codec Response) (dispatch : List PromptRequest → Action W Answers)
    (op : Operator C D W) (env : Environment D) (opts : Options) where
  -- The proxy is for the identity.
  abbrev For : Text → Proxy D → Type 0
  For id p = p.vault_id ≡ id

  forwarded-For :
      (id : Text) (p : Proxy D) (r : Result (Unit {0}) × Server D)
      → For id p
      → For id (forwarded drv requests responses true env.spawn (λ s. not s.stopped) env.now p r).1
  forwarded-For id p (ok u, s) h = h
  forwarded-For id p (err e, s) h = h

  unlock_at-For :
      (id : Text) (answers : Answers) (p : Proxy D) (s : Server D)
      → For id p
      → For id
          (unlock_at drv requests responses true env.spawn
            (λ s. not s.stopped)
            env.now
            answers
            p
            s).1
  unlock_at-For id answers p s h = elim (Bool-cases s.stopped) [
    | inl gone ↦ simp gone h
    | inr runs ↦
        simp runs (forwarded-For id p (client_unlock drv requests responses env.now answers s) h)
  ]

  unlock_spawned-For :
      (id : Text) (answers : Answers) (p : Proxy D) (r : Result (Server D))
      → For id p
      → For id
          (unlock_spawned drv requests responses true env.spawn
            (λ s. not s.stopped)
            env.now
            answers
            p
            r).1
  unlock_spawned-For id answers p (err e) h = h
  unlock_spawned-For id answers p (ok s) h = unlock_at-For id answers p s h

  proxy_unlock-For :
      (id : Text) (answers : Answers) (p : Proxy D)
      → For id p
      → For id
          (proxy_unlock drv requests responses true env.spawn
            (λ s. not s.stopped)
            env.now
            answers
            p).1
  unfolding proxy_unlock
  proxy_unlock-For id answers p h = elim (Option-cases p.server) [
    | inl absent ↦
        simp (absent, proxy_unlock)
          (unlock_spawned-For id answers p (env.spawn p.vault_id p.vault_name) h)
    | inr (s, runs) ↦ simp (runs, proxy_unlock) (unlock_at-For id answers p s h)
  ]

  dial-put_agent :
      (id other : Text) (o : Option (Server D)) (agents : Dict (Server D))
      → text_eq other id ≡ false
      → dial id agents ≡ none
      → dial id (put_agent other o agents) ≡ none
  unfolding dial
  dial-put_agent id other none agents d h = h
  dial-put_agent id other (some s) agents d h = rw (lookup-insert other id s agents, d) h

  settled-dial :
      (id other : Text) (sh : Shell D W) (r : Result (Unit {0}) × (Manager (Proxy D) × W))
      → For other r.1.0.driver
      → text_eq other id ≡ false
      → dial id sh.agents ≡ none
      → dial id (settled drv requests responses dispatch op env opts sh r).1.agents ≡ none
  settled-dial id other sh (out, (m, w)) f d h =
      dial-put_agent id m.driver.vault_id m.driver.server sh.agents (rw f d) h

  abbrev here : VaultDriver C (Proxy D)
  here = proxied drv requests responses dispatch op env opts

  unlock_by-dial :
      (id other : Text) (sh : Shell D W) (r : Result (Proxy D))
      → ((p : Proxy D) → r ≡ ok p → For other p)
      → text_eq other id ≡ false
      → dial id sh.agents ≡ none
      → dial id (unlock_by drv requests responses dispatch op env opts sh r).1.agents ≡ none
  unlock_by-dial id other sh (err e) f d h = h
  unlock_by-dial id other sh (ok p) f d h =
      settled-dial id other sh
        (Manager.open_vault here dispatch (op.decode []) (new_manager p default_retries, sh.world))
        (open_vault_kept here dispatch (For other) (λ c q k. k) (proxy_unlock-For other)
          (op.decode []) (new_manager p default_retries) sh.world (f p refl))
        d h

  proxy_at-For :
      (name n : Text) (conf : VaultConf) (sh : Shell D W) (p : Proxy D)
      → definition_at drv dispatch op sh.world name ≡ ok (n, conf)
      → proxy_at drv requests responses dispatch op env opts name sh ≡ ok p
      → For (vault_id_of env.digest n conf) p
  unfolding proxy_at
  proxy_at-For name n conf sh p defined h =
      let (reg, loaded, resolved) =
        >>=-eq-ok (registry_at drv dispatch op sh.world) (λ r. Vaults.resolve name r) defined in
      let (reg', loaded', proxied_at) = >>=-eq-ok (registry_at drv dispatch op sh.world) _ h in
      let (found, resolved', made) = >>=-eq-ok (Vaults.resolve name reg') _ proxied_at in
      let (d, built, same) =
        >>=-eq-ok (build_driver drv dispatch op found.1)
          (λ d. ok (
            new_proxy found.0 (vault_id_of env.digest found.0 found.1) d
              (dial (vault_id_of env.digest found.0 found.1) sh.agents)))
          made in
      let regs : reg' ≡ reg = ok_injective (sym loaded' ∙ loaded) in
      let pairs : found ≡ (n, conf) =
        ok_injective (sym resolved' ∙ ap (λ r. Vaults.resolve name r) regs ∙ resolved) in
      sym (ap (λ (q : Proxy D). q.vault_id) (ok_injective same))
      ∙ ap (λ (f : Text × VaultConf). vault_id_of env.digest f.0 f.1) pairs

  permission-same :
      (flags : Flags) (sh : Shell D W)
      → let after = (permission drv requests responses dispatch op env opts flags sh).1 in
        (after.agents ≡ sh.agents) × (after.world ≡ sh.world)
  unfolding permission
  permission-same flags sh =
      both_taken (λ (r : Bool × Shell D W). (r.1.agents ≡ sh.agents) × (r.1.world ≡ sh.world))
        flags.force_unlock (true, sh) _ (refl, refl)
        (both_taken (λ (r : Bool × Shell D W). (r.1.agents ≡ sh.agents) × (r.1.world ≡ sh.world))
          (not flags.no_unlock && env.is_terminal) _ (false, sh) (refl, refl) (refl, refl))

  -- No agent is reached.
  abbrev Fails : {A S : Type 0} → Result A × S → Type 0
  Fails r = (e : Error) × (r.0 ≡ err e)

  retried-Fails :
      (id : Text) (r : Result (Unit {0}) × Shell D W)
      → dial id r.1.agents ≡ none
      → Fails (retried drv requests responses dispatch op env opts id r)
  retried-Fails id (err e, sh) h = (e, refl)
  retried-Fails id (ok u, sh) h = rw h (plain, refl)

  permitted-Fails :
      (name id other : Text) (r : Bool × Shell D W)
      → ((p : Proxy D)
          → proxy_at drv requests responses dispatch op env opts name r.1 ≡ ok p
          → For other p)
      → text_eq other id ≡ false
      → dial id r.1.agents ≡ none
      → Fails (permitted drv requests responses dispatch op env opts name id r)
  unfolding unlock_agent
  permitted-Fails name id other (false, sh) f d h = (wraps locked, refl)
  permitted-Fails name id other (true, sh) f d h =
      retried-Fails id (unlock_agent drv requests responses dispatch op env opts name sh) (
        unlock_by-dial id other sh (proxy_at drv requests responses dispatch op env opts name sh) f
          d h)

  -- Where the identity that is selected, as by the option VaultID, is not the one that the
  -- definition of the vault has, and no agent runs under it, `withAgent` fails, whatever the flags,
  -- the answers and the outcome of an unlock.
  pub with_agent_overridden :
      (flags : Flags) (sh : Shell D W) (name n id : Text) (conf conf' : VaultConf)
      → select_vault drv requests responses dispatch op env opts flags.vault sh.world
        ≡ ok (name, (conf, id))
      → definition_at drv dispatch op sh.world name ≡ ok (n, conf')
      → text_eq (vault_id_of env.digest n conf') id ≡ false
      → dial id sh.agents ≡ none
      → Fails (with_agent drv requests responses dispatch op env opts flags sh)
  unfolding with_agent
  with_agent_overridden flags sh name n id conf conf' chosen defined differs absent =
      let (agents, world) = permission-same flags sh in
      let asked = permission drv requests responses dispatch op env opts flags sh in
      let defined_still : definition_at drv dispatch op asked.1.world name ≡ ok (n, conf') =
        ap (λ w. definition_at drv dispatch op w name) world ∙ defined in
      let absent_still : dial id asked.1.agents ≡ none = ap (λ l. dial id l) agents ∙ absent in
      rw (chosen, absent)
        (permitted-Fails name id (vault_id_of env.digest n conf') asked
          (λ p made. proxy_at-For name n conf' asked.1 p defined_still made) differs absent_still)
