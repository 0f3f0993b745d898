-- ===== src/Agent/Proxy.antt =====
-- internal/agent/proxy.go: the driver that forwards to the agent of a vault and starts one on unlock.
-- The agent that runs for the vault, if one does, stands in the driver's state. Starting a process and
-- whether an agent accepts a connection are parameters; `now` is the time of a request.
pub mod Transparent
use go_flexconf.Driver.{VaultDriver, Capabilities}
use go_flexconf.Agent.Wire.{Codec, Request, Response}
use go_flexconf.Agent.Server.{Server}
use go_flexconf.Agent.Client.{
  Status, client_get, client_list, client_set, client_status, client_unlock,
}
use go_flexconf.Prompt.{Answers, PromptRequest}
use go_flexconf.Errors.{Error, Result, ok, err, wraps, plain, agent_unavailable, locked}
use go_flexconf.Text.{Text}
use go_flexconf.Base.{Bool, List, Option, [], false, true, if◌then◌else◌, none, some, not, ℕ}

-- `real` is the state of the real driver, and `connected` says if there is a client.
pub record Proxy (D : Type 0) : Type 0 where
  pub vault_name : Text
  pub vault_id : Text
  pub real : D
  pub connected : Bool
  pub unlocked : Bool
  pub server : Option (Server D)

-- NewProxy, once the vault's definition is resolved and its driver built
abbrev pub new_proxy : {D : Type 0} → Text → Text → D → Option (Server D) → Proxy D
new_proxy name id real server = record {
  vault_name = name;
  vault_id = id;
  real = real;
  connected = false;
  unlocked = false;
  server = server;
}

module _ {C D : Type 0} (drv : VaultDriver C D) (requests : Codec Request)
    (responses : Codec Response) (wired : Bool) (spawn : Text → Text → Result (Server D))
    (accepts : Server D → Bool) (now : ℕ) where
  abbrev pub Call : Type 0 → Type 0
  Call A = Proxy D → Result A × Proxy D

  unfoldable pub proxy_credentials : Proxy D → List PromptRequest
  proxy_credentials p = elim (p.server) [ none ↦ drv.credentials p.real | some s ↦ [] ]

  -- The outcome of the agent's unlock; on an error the client is closed and dropped.
  abbrev pub forwarded : Proxy D → Result (Unit {0}) × Server D → Result (Unit {0}) × Proxy D
  forwarded p (err e, s) = (err e, record p { server = some s })
  forwarded p (ok u, s) = (ok tt, record p { server = some s; connected = true; unlocked = true })

  -- Dial, and the unlock of the agent
  abbrev pub unlock_at : Answers → Proxy D → Server D → Result (Unit {0}) × Proxy D
  unlock_at answers p s =
      if not (accepts s)
      then (err plain, record p { server = some s })
      else forwarded p (client_unlock drv requests responses now answers s)

  abbrev pub unlock_spawned : Answers → Proxy D → Result (Server D) → Result (Unit {0}) × Proxy D
  unlock_spawned answers p (err e) = (err e, p)
  unlock_spawned answers p (ok s) = unlock_at answers p s

  unfoldable pub proxy_unlock : Answers → Call (Unit {0})
  unfolding client_unlock
  proxy_unlock answers p = elim (p.server) [
    | some s ↦ unlock_at answers p s
    | none ↦
        if not wired
        then (err (wraps agent_unavailable), p)
        else unlock_spawned answers p (spawn p.vault_id p.vault_name)
  ]

  abbrev pub status_of : Proxy D → Result Status → Capabilities
  status_of p (ok st) = record { writable = st.writable; creatable = false }
  status_of p (err e) = drv.capabilities p.real

  unfoldable pub proxy_capabilities : Proxy D → Capabilities
  unfolding client_status
  proxy_capabilities p = elim (p.server) [
    | none ↦ drv.capabilities p.real
    | some s ↦
        if p.connected
        then status_of p (client_status drv requests responses now s).0
        else drv.capabilities p.real
  ]

  abbrev pub answered : {A : Type 0} → Proxy D → Result A × Server D → Result A × Proxy D
  answered p (r, s) = (r, record p { server = some s; connected = true })

  -- activeClient, and a request by that client; a connection to an agent that is gone fails.
  abbrev pub with_client : {A : Type 0} → (Server D → Result A × Server D) → Call A
  with_client request p = elim (p.server) [
    | none ↦ if p.connected then (err plain, p) else (err (wraps locked), p)
    | some s ↦
        if p.connected
        then answered p (request s)
        else if accepts s
        then answered p (request s)
        else (err (wraps locked), p)
  ]

  unfoldable pub proxy_get : Text → Call Text
  unfolding client_get
  proxy_get addr = with_client (client_get drv requests responses now addr)

  unfoldable pub proxy_set : Text → Text → Call (Unit {0})
  unfolding client_set
  proxy_set addr value = with_client (client_set drv requests responses now addr value)

  unfoldable pub proxy_list : Text → Call (List Text)
  unfolding client_list
  proxy_list ns = with_client (client_list drv requests responses now ns)

  unfoldable pub proxy_lock : Call (Unit {0})
  proxy_lock p = (ok tt, record p { connected = false; unlocked = false })

  -- The proxy as a driver; its `Configure` does nothing.
  abbrev pub proxy : VaultDriver C (Proxy D)
  proxy = record {
    configure = λ c p. (ok tt, p);
    credentials = proxy_credentials;
    unlock = proxy_unlock;
    capabilities = proxy_capabilities;
    get = proxy_get;
    set = proxy_set;
    list = proxy_list;
    lock = proxy_lock;
    initializer = none;
  }
