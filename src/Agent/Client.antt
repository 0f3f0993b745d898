-- ===== src/Agent/Client.antt =====
-- internal/agent/client.go: requests over a connection to a running agent. A frame that cannot be
-- written or read ends the connection, which the other side sees as an error that wraps no
-- sentinel.
pub mod Transparent
use go_flexconf.Driver.{VaultDriver}
use go_flexconf.Prompt.{Answers}
use go_flexconf.Base.{Bool, List, String, [], code, if◌then◌else◌, not, ℕ}
use go_flexconf.Agent.Wire.{
  Bytes, Codec, Request, Response, code_error, read_frame, write_frame, get_request, list_request,
  lock_request, set_request, status_request, unlock_request,
}
use go_flexconf.Errors.{Result, err, ok, plain, ◌>>=◌, ◌>>◌}
use go_flexconf.Agent.Server.{Server, serve_request}
use go_flexconf.Text.{Text, text}
use go_flexconf.Base.Int.{ℤ}

pub record Status : Type 0 where
  pub unlocked : Bool
  pub vault_id : Text
  pub idle_left : ℤ
  pub writable : Bool

module _ {C D : Type 0} (drv : VaultDriver C D) (requests : Codec Request)
    (responses : Codec Response) where
  abbrev Exchange : Type 0 → Type 0
  Exchange A = Server D → Result A × Server D

  -- roundTrip, when the response has been read.
  abbrev accept : Result (Response × Bytes) → Result Response
  accept (err e) = err plain
  accept (ok (resp, rest)) = if not resp.accepted then err (code_error resp.code) else ok resp

  abbrev answer : Response × Server D → Result Response × Server D
  answer (resp, s) =
      ((do bytes ← write_frame responses resp; accept (read_frame responses bytes)), s)

  abbrev serve_frame : ℕ → Result (Request × Bytes) → Exchange Response
  serve_frame now (err e) s = (err plain, s)
  serve_frame now (ok (req, rest)) s = answer (serve_request drv now req s)

  abbrev send : ℕ → Result Bytes → Exchange Response
  send now (err e) s = (err e, s)
  send now (ok bytes) s = serve_frame now (read_frame requests bytes) s

  unfoldable pub round_trip : ℕ → Request → Exchange Response
  round_trip now req s = send now (write_frame requests req) s

  abbrev with_response {ℓ} :
      {A : Type ℓ} {S : Type ℓ} → (Response → A) → Result Response × S → Result A × S
  with_response f (ok resp, s) = (ok (f resp), s)
  with_response f (err e, s) = (err e, s)

  unfoldable pub client_unlock : ℕ → Answers → Exchange (Unit {0})
  client_unlock now answers s =
      with_response (λ resp. tt) (round_trip now (unlock_request answers) s)

  unfoldable pub client_get : ℕ → Text → Exchange Text
  client_get now addr s = with_response (λ resp. resp.value) (round_trip now (get_request addr) s)

  unfoldable pub client_set : ℕ → Text → Text → Exchange (Unit {0})
  client_set now addr value s =
      with_response (λ resp. tt) (round_trip now (set_request addr value) s)

  unfoldable pub client_list : ℕ → Text → Exchange (List Text)
  client_list now ns s = with_response (λ resp. resp.list) (round_trip now (list_request ns) s)

  unfoldable pub client_status : ℕ → Exchange Status
  client_status now s =
      with_response
        (λ resp. record {
          unlocked = resp.unlocked;
          vault_id = resp.vault_id;
          idle_left = resp.idle_left;
          writable = resp.writable;
        })
        (round_trip now status_request s)

  unfoldable pub client_lock : ℕ → Exchange (Unit {0})
  client_lock now s = with_response (λ resp. tt) (round_trip now lock_request s)
