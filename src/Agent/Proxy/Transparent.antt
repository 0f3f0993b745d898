-- ===== src/Agent/Proxy/Transparent.antt =====
-- A Manager over the proxy and the Manager in the agent.
use go_flexconf.Driver.{VaultDriver}
use go_flexconf.Agent.Proxy.{
  Proxy, proxy, proxy_get, proxy_unlock, answered, forwarded, proxy_list, proxy_lock, proxy_set,
  unlock_at, unlock_spawned, with_client,
}
use go_flexconf.Agent.Client.Transparent.{Sendable, crossed, client_get-transparent}
use go_flexconf.Address.Laws.{parse_address_stable}
use go_flexconf.Manager
use go_flexconf.Manager.{Manager}
use go_flexconf.Agent.Server.{Server, serve_request}
use go_flexconf.Agent.Wire.{Codec, Request, Response, get_request}
use go_flexconf.Errors.{Result-cases, err, ok, Result}
use go_flexconf.Prompt.{Answers}
use go_flexconf.Base.{Bool, ap, inl, inr, refl, some, true, ℕ, ◌∙◌, ◌≡◌, Bool-cases, Option-cases}
use go_flexconf.Text.{Text}
use go_flexconf.Address.{join_address, parse_address}
use go_flexconf.Agent.Client.{client_get}

module _ {C D : Type 0} (drv : VaultDriver C D) where
  -- A Manager takes an address and its normal form for the same.
  get-normal :
      (m : Manager D) (addr : Text) {namespace key : Text}
      → parse_address addr ≡ ok (namespace, key)
      → Manager.get drv (join_address namespace key) m ≡ Manager.get drv addr m
  unfolding Manager.get
  get-normal m addr {namespace} {key} h = elim (Result-cases (Manager.guard drv m)) [
    | inr (e, closed) ↦ rw closed refl
    | inl (u, opened) ↦ rw (opened, h, parse_address_stable addr h) refl
  ]

module _ {C D : Type 0} (drv : VaultDriver C D) (requests : Codec Request)
    (responses : Codec Response) (wired : Bool) (spawn : Text → Text → Result (Server D))
    (accepts : Server D → Bool) (now : ℕ) where
  abbrev proxied : VaultDriver C (Proxy D)
  proxied = proxy drv requests responses wired spawn accepts now

  with_client-connected :
      {A : Type 0} (request : Server D → Result A × Server D) (p : Proxy D) (s : Server D)
      → p.connected ≡ true
      → p.server ≡ some s
      → with_client drv requests responses wired spawn accepts now request p
        ≡ answered drv requests responses wired spawn accepts now p (request s)
  with_client-connected request p s c d = simp (d, c, with_client) refl

  -- `Get` of a Manager over a proxy whose client is connected returns what the Manager in the agent
  -- returns for the same address, with the vault sentinel of an error, if the two messages can be sent.
  pub proxied_get-transparent :
      (m : Manager (Proxy D)) (s : Server D) (addr namespace key : Text)
      → m.configured ≡ true
      → m.unlocked ≡ true
      → m.driver.connected ≡ true
      → m.driver.server ≡ some s
      → parse_address addr ≡ ok (namespace, key)
      → Sendable requests (get_request (join_address namespace key))
      → Sendable responses (serve_request drv now (get_request (join_address namespace key)) s).0
      → (Manager.get proxied addr m).0 ≡ crossed (Manager.get drv addr s.manager).0
  unfolding Manager.get Manager.guard proxy_get
  proxied_get-transparent m s addr namespace key a b c d h p q =
      let (value, after) =
        client_get-transparent drv requests responses now (join_address namespace key) s p q in
      let same = get-normal drv s.manager addr h in
      let there =
        with_client-connected (client_get drv requests responses now (join_address namespace key))
          m.driver s c d in
      simp (a, b, h, there) (value ∙ ap (λ (r : Result Text × Manager D). crossed r.0) same)

  forwarded-real :
      (p : Proxy D) (r : Result (Unit {0}) × Server D)
      → (forwarded drv requests responses wired spawn accepts now p r).1.real ≡ p.real
  forwarded-real p (ok u, s) = refl
  forwarded-real p (err e, s) = refl

  unlock_at-real :
      (answers : Answers) (p : Proxy D) (s : Server D)
      → (unlock_at drv requests responses wired spawn accepts now answers p s).1.real ≡ p.real
  unlock_at-real answers p s = elim (Bool-cases (accepts s)) [
    | inl taken ↦ rw (taken, unlock_at) (forwarded-real p _)
    | inr refused ↦ rw (refused, unlock_at) refl
  ]

  spawned-real :
      (answers : Answers) (p : Proxy D) (r : Result (Server D))
      → (unlock_spawned drv requests responses wired spawn accepts now answers p r).1.real ≡ p.real
  spawned-real answers p (ok s) = unlock_at-real answers p s
  spawned-real answers p (err e) = refl

  with_client-real :
      {A : Type 0} (request : Server D → Result A × Server D) (p : Proxy D)
      → (with_client drv requests responses wired spawn accepts now request p).1.real ≡ p.real
  with_client-real request p = elim (Option-cases p.server) [
    | inl gone ↦ elim (Bool-cases p.connected) [
      | inl c ↦ simp (gone, c, with_client) refl
      | inr c ↦ simp (gone, c, with_client) refl
    ]
    | inr (s, there) ↦ elim (Bool-cases p.connected) [
      | inl c ↦ simp (there, c, with_client) refl
      | inr c ↦ elim (Bool-cases (accepts s)) [
        | inl taken ↦ simp (there, c, taken, with_client) refl
        | inr refused ↦ simp (there, c, refused, with_client) refl
      ]
    ]
  ]

  unlock-real : (answers : Answers) (p : Proxy D) → (proxied.unlock answers p).1.real ≡ p.real
  unfolding proxy_unlock
  unlock-real answers p = elim (Option-cases p.server) [
    | inr (s, there) ↦ simp (there, proxy_unlock) (unlock_at-real answers p s)
    | inl gone ↦ elim (Bool-cases wired) [
      | inl w ↦ simp (gone, w, proxy_unlock) (spawned-real answers p _)
      | inr w ↦ simp (gone, w, proxy_unlock) refl
    ]
  ]

  -- A call of the driver.
  pub data ProxyCall : Type 0 where
    configures : C → ProxyCall
    unlocks : Answers → ProxyCall
    gets lists : Text → ProxyCall
    sets : Text → Text → ProxyCall
    locks : ProxyCall

  -- What a call leaves.
  abbrev pub after : ProxyCall → Proxy D → Proxy D
  after (configures c) p = (proxied.configure c p).1
  after (unlocks answers) p = (proxied.unlock answers p).1
  after (gets addr) p = (proxied.get addr p).1
  after (lists ns) p = (proxied.list ns p).1
  after (sets addr value) p = (proxied.set addr value p).1
  after locks p = (proxied.lock p).1

  -- No call of the proxy driver, whatever its outcome, touches the real driver that it holds: the
  -- backend is never opened in the process of the proxy.
  pub after-real : (c : ProxyCall) (p : Proxy D) → (after c p).real ≡ p.real
  unfolding proxy_get proxy_set proxy_list proxy_lock
  after-real (configures c) p = refl
  after-real (unlocks answers) p = unlock-real answers p
  after-real (gets addr) p = with_client-real _ p
  after-real (lists ns) p = with_client-real _ p
  after-real (sets addr value) p = with_client-real _ p
  after-real locks p = refl
