-- ===== src/Agent/Client/Transparent.antt =====
-- A client of the agent sees what a caller of the agent's own Manager would see.
use go_flexconf.Manager
use go_flexconf.Manager.{Manager}
use go_flexconf.Driver.{VaultDriver}
use go_flexconf.Agent.Server.{
  Server, serve_request, handle_get, handle_op, handle_set, reset_idle, handle, unit_response,
  value_response,
}
use go_flexconf.Agent.Client.{round_trip, client_get, client_set, with_response}
use go_flexconf.Agent.Wire.{
  Bytes, Codec, Request, Response, code_error, get_request, max_frame, set_request, read_frame,
  write_frame,
}
use go_flexconf.Errors.{Result, err, ok}
use go_flexconf.Text.{Text}
use go_flexconf.Base.{
  [], arith, if◌then◌else◌, length, not, ℕ, ◌≡◌, ◌≤◌, ap, append-nil, leb, refl, sym, true, ◌∙◌,
}
use go_flexconf.Agent.Wire.Codes.{crosses, code_error-error_code}
use go_flexconf.Agent.Wire.Frames.{frame_of, write_frame-frame_of, read_frame-frame_of}

-- A message that the codec writes within the cap and reads back.
pub record Sendable {A : Type 0} (c : Codec A) (a : A) : Type 0 where
  pub payload : Bytes
  pub marshals : c.marshal a ≡ ok payload
  pub unmarshals : c.unmarshal payload ≡ ok a
  pub fits : length payload ≤ max_frame

-- An outcome on the far side of the wire: an error keeps its vault sentinel and nothing else.
abbrev pub crossed {ℓ} : {A : Type ℓ} → Result A → Result A
crossed (ok a) = ok a
crossed (err e) = err (crosses e)

module _ {A : Type 0} (c : Codec A) (a : A) (sendable : Sendable c a) where
  pub sent : write_frame c a ≡ ok (frame_of sendable.payload)
  sent = write_frame-frame_of c a sendable.payload sendable.marshals (omega (arith, sendable.fits))

  pub received : read_frame c (frame_of sendable.payload) ≡ ok (a, [])
  received =
      ap (read_frame c) (sym (append-nil (frame_of sendable.payload)))
      ∙ read_frame-frame_of c a sendable.payload [] sendable.unmarshals
          (omega (arith, sendable.fits))
      ∙ (let bounded : leb (length sendable.payload) max_frame ≡ true =
            ground (arith, sendable.fits) in
          rw bounded)

module _ {C D : Type 0} (drv : VaultDriver C D) (requests : Codec Request)
    (responses : Codec Response) where
  settle : Response → Result Response
  settle resp = if not resp.accepted then err (code_error resp.code) else ok resp

  round_trip-served :
      (now : ℕ) (req : Request) (s : Server D)
      → Sendable requests req
      → Sendable responses (serve_request drv now req s).0
      → round_trip drv requests responses now req s
        ≡ (settle (serve_request drv now req s).0, (serve_request drv now req s).1)
  unfolding round_trip settle
  round_trip-served now req s p q =
      rw (sent requests req p, received requests req p, sent responses _ q, received responses _ q)

  reset_idle-manager : (now : ℕ) (s : Server D) → (reset_idle now s).manager ≡ s.manager
  unfolding reset_idle
  reset_idle-manager now s = ground arith

  served_get :
      (now : ℕ) (addr : Text) (s : Server D)
      → serve_request drv now (get_request addr) s
        ≡ handle_get drv (get_request addr) (reset_idle now s)
  unfolding serve_request handle handle_op handle_get
  served_get now addr s = refl

  settle_value :
      (r : Result Text) (s : Server D)
      → (with_response drv requests responses
          (λ resp. resp.value)
          (settle (value_response drv r), s)).0
        ≡ crossed r
  unfolding settle
  settle_value (ok v) s = refl
  settle_value (err e) s = ap (λ e'. err e') (code_error-error_code e)

  with_response-state :
      {A : Type 0} (f : Response → A) (r : Result Response) (s : Server D)
      → (with_response drv requests responses f (r, s)).1 ≡ s
  with_response-state f (ok resp) s = refl
  with_response-state f (err e) s = refl

  -- `Get` through the agent returns what the agent's Manager returns, with the vault sentinel of
  -- an error, and leaves that Manager as its own `Get` does, if the two messages can be sent.
  pub client_get-transparent :
      (now : ℕ) (addr : Text) (s : Server D)
      → Sendable requests (get_request addr)
      → Sendable responses (serve_request drv now (get_request addr) s).0
      → ((client_get drv requests responses now addr s).0
          ≡ crossed (Manager.get drv addr s.manager).0)
        × ((client_get drv requests responses now addr s).1.manager
            ≡ (Manager.get drv addr s.manager).1)
  unfolding client_get handle_get
  client_get-transparent now addr s p q =
      let served =
        round_trip-served now (get_request addr) s p q
        ∙ ap (λ (r : Response × Server D). (settle r.0, r.1)) (served_get now addr s) in
      let get_value = λ (r : Result Response × Server D).
        with_response drv requests responses (λ resp. resp.value) r in
      let m = reset_idle-manager now s in
      (
        ap (λ r. (get_value r).0) served
            ∙ settle_value (Manager.get drv addr (reset_idle now s).manager).0 _
            ∙ ap (λ m'. crossed (Manager.get drv addr m').0) m,
        ap (λ r. (get_value r).1.manager) served
            ∙ ap (λ (t : Server D). t.manager) (with_response-state (λ resp. resp.value) _ _)
            ∙ ap (λ m'. (Manager.get drv addr m').1) m,
      )

  reset_idle-stopped : (now : ℕ) (s : Server D) → (reset_idle now s).stopped ≡ s.stopped
  unfolding reset_idle
  reset_idle-stopped now s = ground arith

  served_set :
      (now : ℕ) (addr value : Text) (s : Server D)
      → serve_request drv now (set_request addr value) s
        ≡ handle_set drv (set_request addr value) (reset_idle now s)
  unfolding serve_request handle handle_op handle_set
  served_set now addr value s = refl

  settle_done :
      (r : Result (Unit {0})) (s : Server D)
      → (with_response drv requests responses (λ resp. tt) (settle (unit_response drv r), s)).0
        ≡ crossed r
  unfolding settle
  settle_done (ok u) s = refl
  settle_done (err e) s = ap (λ e'. err e') (code_error-error_code e)

  -- `Set` through the agent ends as `Set` of the agent's Manager does, with the vault sentinel of an
  -- error, leaves that Manager as its own `Set` does, and stops no agent, if the two messages can be
  -- sent.
  pub client_set-transparent :
      (now : ℕ) (addr value : Text) (s : Server D)
      → Sendable requests (set_request addr value)
      → Sendable responses (serve_request drv now (set_request addr value) s).0
      → let (r, s') = client_set drv requests responses now addr value s in
        let (r', m) = Manager.set drv addr value s.manager in
        (r ≡ crossed r') × (s'.manager ≡ m) × (s'.stopped ≡ s.stopped)
  unfolding client_set handle_set
  client_set-transparent now addr value s p q =
      let served =
        round_trip-served now (set_request addr value) s p q
        ∙ ap (λ (r : Response × Server D). (settle r.0, r.1)) (served_set now addr value s) in
      let finish = λ (r : Result Response × Server D).
        with_response drv requests responses (λ resp. tt {0}) r in
      let left = with_response-state (λ resp. tt {0}) _ _ in
      let m = reset_idle-manager now s in
      (
        ap (λ r. (finish r).0) served
            ∙ settle_done (Manager.set drv addr value (reset_idle now s).manager).0 _
            ∙ ap (λ m'. crossed (Manager.set drv addr value m').0) m,
        ap (λ r. (finish r).1.manager) served
            ∙ ap (λ (t : Server D). t.manager) left
            ∙ ap (λ m'. (Manager.set drv addr value m').1) m,
        ap (λ r. (finish r).1.stopped) served
            ∙ ap (λ (t : Server D). t.stopped) left
            ∙ reset_idle-stopped now s,
      )
