-- ===== src/Command/Actions/RoundTrip.antt =====
-- flexcli/secret.go: `set` and then `get` on one vault, through the agent that runs for it.
use go_flexconf.Command.{
  Shell, Flags, Options, Environment, dial, select_vault, with_agent, prints, serving,
}
use go_flexconf.Command.Actions.{get_cmd, set_cmd, line, served}
use go_flexconf.Command.Actions.Serving.{get_cmd-transparent, dial-lookup, done, shown}
use go_flexconf.Agent.Client.Transparent.{Sendable, crossed, client_set-transparent}
use go_flexconf.Agent.Server.{Server, serve_request}
use go_flexconf.Agent.Client.{client_set}
use go_flexconf.Agent.Wire.{Codec, Request, Response, get_request, set_request}
use go_flexconf.Driver.{VaultDriver, Remembers}
use go_flexconf.Prompt.{Answers, PromptRequest}
use go_flexconf.Action.{Action}
use go_flexconf.Secret.{Operator}
use go_flexconf.Address.{parse_address}
use go_flexconf.Vaults.{VaultConf}
use go_flexconf.Manager
use go_flexconf.Manager.{Manager}
use go_flexconf.Manager.Remembering.{set-remembers}
use go_flexconf.Dict.{Dict, lookup, insert}
use go_flexconf.Dict.Laws.{lookup-insert_self}
use go_flexconf.Text.{Text, text}
use go_flexconf.Base.{
  Bool, List, [], false, if◌then◌else◌, none, refl, some, subst, sym, true, ◌++◌, ◌≡◌, ap, ◌∙◌,
  Option, some_injective, both_taken, else_taken,
}
use go_flexconf.Errors.{Result, err, ok, plain, err_ne_ok}

crossed-ok : (r : Result (Unit {0})) → crossed r ≡ ok tt → r ≡ ok tt
crossed-ok (ok u) h = refl
crossed-ok (err e) h = absurd (err_ne_ok h)

live_unless :
    {A : Type 0} (b : Bool) (t : A) {a : A}
    → (if b then none else some t) ≡ some a
    → (b ≡ false) × (t ≡ a)
live_unless true t h = cc
live_unless false t h = (refl, some_injective h)

serving-live :
    {D : Type 0} (o : Option (Server D)) {s : Server D} → serving o ≡ some s → s.stopped ≡ false
serving-live none h = cc
serving-live (some t) h =
    let (running, same) = live_unless t.stopped t h in ap (λ s'. s'.stopped) (sym same) ∙ running

dial-insert :
    {D : Type 0} (id : Text) (s : Server D) (agents : Dict (Server D))
    → s.stopped ≡ false
    → dial id (insert id s agents) ≡ some s
unfolding dial
dial-insert id s agents live =
    rw lookup-insert_self (else_taken (λ o. o ≡ some s) s.stopped _ _ live refl)

module _ {C D W : Type 0} (drv : VaultDriver C D) (requests : Codec Request)
    (responses : Codec Response) (dispatch : List PromptRequest → Action W Answers)
    (op : Operator C D W) (env : Environment D) (opts : Options) where
  -- What `set` comes to, and what `get --raw` after it prints.
  abbrev pub ReadsBack : Flags → Text → Shell D W → Result (Unit {0}) × Shell D W → Type 0
  ReadsBack flags addr sh (r, after) =
      let (r', last) = get_cmd drv requests responses dispatch op env opts true flags addr after in
      (after.output ≡ sh.output ++ line (text "ok"))
      × (r' ≡ ok tt)
      × (last.output ≡ after.output ++ sh.input)

  served-ReadsBack :
      (flags : Flags) (sh : Shell D W) (name : Text) (conf : VaultConf) (id : Text) (s : Server D)
      (addr : Text) {namespace key : Text} (r : Result (Unit {0}) × Server D)
      → Remembers drv
      → select_vault drv requests responses dispatch op env opts flags.vault sh.world
        ≡ ok (name, (conf, id))
      → parse_address addr ≡ ok (namespace, key)
      → r.0 ≡ crossed (Manager.set drv addr sh.input s.manager).0
      → r.1.manager ≡ (Manager.set drv addr sh.input s.manager).1
      → r.1.stopped ≡ false
      → Sendable requests (get_request addr)
      → Sendable responses (serve_request drv env.now (get_request addr) r.1).0
      → let d =
          served drv requests responses dispatch op env opts id
            (λ u. prints (line (text "ok")))
            (record sh { input = sh.later; later = [] })
            r in
        d.0 ≡ ok tt → ReadsBack flags addr sh d
  served-ReadsBack flags sh name conf id s addr (err e, s') law chosen valid same left live p q h =
      absurd (err_ne_ok h)
  served-ReadsBack flags sh name conf id s addr (ok u, s') law chosen valid same left live p q h =
      let stored = set-remembers drv law addr sh.input s.manager (crossed-ok _ (sym same)) in
      let found = ap (λ m. (Manager.get drv addr m).0) left ∙ stored in
      let after =
        prints (line (text "ok"))
          (record sh { input = sh.later; later = []; agents = insert id s' sh.agents }) in
      let (r, printed, world) =
        get_cmd-transparent drv requests responses dispatch op env opts true flags after name conf
          id s' addr chosen (dial-insert id s' sh.agents live) valid p q in
      (
        refl,
        r ∙ ap (λ x. done (crossed x)) found,
        printed ∙ ap (λ x. after.output ++ shown true (crossed x)) found,
      )

  -- With an agent for the vault that is selected, and a driver that remembers what was set: when
  -- `set` of an address succeeds, it prints `ok`, and `get --raw` of that address after it succeeds
  -- and prints all of the input that `set` had and nothing else, if the four messages can be sent.
  pub set_cmd-get_cmd :
      (flags : Flags) (sh : Shell D W) (name : Text) (conf : VaultConf) (id : Text) (s : Server D)
      (addr : Text) {namespace key : Text}
      → Remembers drv
      → select_vault drv requests responses dispatch op env opts flags.vault sh.world
        ≡ ok (name, (conf, id))
      → dial id sh.agents ≡ some s
      → parse_address addr ≡ ok (namespace, key)
      → Sendable requests (set_request addr sh.input)
      → Sendable responses (serve_request drv env.now (set_request addr sh.input) s).0
      → Sendable requests (get_request addr)
      → Sendable responses
          (serve_request drv env.now
            (get_request addr)
            (client_set drv requests responses env.now addr sh.input s).1).0
      → (set_cmd drv requests responses dispatch op env opts flags addr sh).0 ≡ ok tt
      → ReadsBack flags addr sh (set_cmd drv requests responses dispatch op env opts flags addr sh)
  unfolding set_cmd with_agent
  set_cmd-get_cmd flags sh name conf id s addr law chosen running valid p q p' q' =
      let there = dial-lookup id sh.agents running in
      let live = serving-live (lookup id sh.agents) running in
      let (same, left, stays) =
        client_set-transparent drv requests responses env.now addr sh.input s p q in
      let Goal : Result (Unit {0}) × Shell D W → Type 0 =
        λ d. d.0 ≡ ok tt → ReadsBack flags addr sh d in
      let sent =
        served drv requests responses dispatch op env opts id (λ u. prints (line (text "ok")))
          (record sh { input = sh.later; later = [] })
          (client_set drv requests responses env.now addr sh.input s) in
      let outcome : set_cmd drv requests responses dispatch op env opts flags addr sh
          ≡ (if sh.broken_input then (err plain, sh) else sent) =
        rw (valid, chosen, running, there) refl in
      let kept =
        served-ReadsBack flags sh name conf id s addr
          (client_set drv requests responses env.now addr sh.input s) law chosen valid same left
          (stays ∙ live) p' q' in
      subst Goal (sym outcome)
        (both_taken Goal sh.broken_input _ _ (λ h. absurd (err_ne_ok h)) kept)
