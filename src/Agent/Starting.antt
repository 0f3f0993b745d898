-- ===== src/Agent/Starting.antt =====
-- internal/agent/paths.go and internal/agent/spawn.go: the files of an agent, and how one is started.
-- What the operating system does is given as outcomes.
use go_flexconf.Errors.{Result, ok, err, plain, ◌>>=◌}
use go_flexconf.Text.{Text, text}
use go_flexconf.Base.{Bool, List, [], false, if◌then◌else◌, is_empty, not, true, ℕ, ◌++◌, ◌∷◌}

-- runtimeDir; `makes` is os.MkdirAll
unfoldable pub runtime_dir :
    (Text → Text) → (Text → Text → Text) → Text → Text → (Text → Bool) → Result Text
runtime_dir getenv join temp uid makes =
    let override = getenv (text "FLEXCONF_RUNTIME_DIR") in
    let xdg = getenv (text "XDG_RUNTIME_DIR") in
    let dir =
      if not (is_empty override)
      then override
      else if not (is_empty xdg)
      then join xdg (text "flexconf")
      else join temp (text "flexconf-" ++ uid) in
    if makes dir then ok dir else err plain

-- socketPath, pidPath, errPath and lockPath, by the suffix
unfoldable pub agent_path : (Text → Text → Text) → Text → Text → Result Text → Result Text
agent_path join id suffix dir =
    dir >>= λ d. ok (join d (text "agent-" ++ (id ++ (text "." ++ suffix))))

-- One look of the wait for the socket: is the agent running, and what the error file holds.
pub record Look : Type 0 where
  pub running : Bool
  pub failure : Text

-- The loop of Spawn over its looks until the deadline
unfoldable pub await_socket : List Look → Result (Unit {0})
await_socket [] = err plain
await_socket (look ∷ more) =
    let rest = await_socket more in
    if look.running then ok tt else if not (is_empty look.failure) then err plain else rest

-- Spawn, once the lock file is locked; the result says if a process was started.
unfoldable pub spawn_locked : Bool → Bool → List Look → Result (Unit {0}) × Bool
unfolding await_socket
spawn_locked running starts looks =
    if running
    then (ok tt, false)
    else if not starts
    then (err plain, false)
    else (await_socket looks, true)

abbrev locked_file : Bool → Bool → List Look → Result (Unit {0}) → Result (Unit {0}) × Bool
locked_file running starts looks (err e) = (err e, false)
locked_file running starts looks (ok u) = spawn_locked running starts looks

-- Spawn, where opening and locking the file of `lock_path` may fail
unfoldable pub spawn :
    Result Text → Result (Unit {0}) → Bool → Bool → List Look → Result (Unit {0}) × Bool
unfolding spawn_locked
spawn (err e) locking running starts looks = (err e, false)
spawn (ok lock_path) locking running starts looks = locked_file running starts looks locking

-- What RunAgentIfRequested comes to: a process that goes on, or one that exits with a code.
pub data Role : Type 0 where
  goes_on : Role
  exits : ℕ → Role

-- RunAgentIfRequested, over the identity that the environment has and the outcome of Serve
unfoldable pub run_agent_if_requested : Text → Result (Unit {0}) → Role
run_agent_if_requested vault_id (err e) = if is_empty vault_id then goes_on else exits 1
run_agent_if_requested vault_id (ok u) = if is_empty vault_id then goes_on else exits 0
