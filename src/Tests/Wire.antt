-- ===== src/Tests/Wire.antt =====
-- The agent over a vault in memory, and messages through small codecs.
use go_flexconf.Manager
use go_flexconf.Manager.{Manager, new_manager}
use go_flexconf.Keepass
use go_flexconf.Keepass.{Driver, KeepassConfig, credentials, root}
use go_flexconf.Keepass.Storage
use go_flexconf.Driver.{VaultDriver}
use go_flexconf.Tests.Memory.{memory, Files, put}
use go_flexconf.Agent.Server.{Server, serve_request, handle_unlock}
use go_flexconf.Agent.Server.Answering.{handle_unlock-forwards}
use go_flexconf.Agent.Client.{client_get}
use go_flexconf.Agent.Client.Transparent.{Sendable, crossed, client_get-transparent}
use go_flexconf.Agent.Wire.{Codec, get_request, unlock_request, read_frame, write_frame, Request}
use go_flexconf.Agent.Wire.Frames.{frame_of, read_frame-write_frame}
use go_flexconf.Prompt.{Answers, collect}
use go_flexconf.Errors.{Result, ok, ok_injective, err, plain}
use go_flexconf.Text.{Text, text}
use go_flexconf.Base.{[], ap, arith, false, none, refl, some, sym, true, ◌++◌, ◌↔◌, ◌∷◌, ◌≡◌}
use go_flexconf.Keepass.Storage.{keepass}
use go_flexconf.Agent.Proxy.{Proxy, new_proxy, proxy}
use go_flexconf.Address.{join_address, parse_address}
use go_flexconf.Agent.Proxy.Transparent.{proxied_get-transparent}

abbrev vault : VaultDriver (Result KeepassConfig) (Driver Files)
vault = Storage.keepass memory

abbrev blank : Driver Files
blank = record {
  cfg = record { file = text "/v.kdbx"; key_file = []; read_only = false };
  configured = true;
  db = none;
  world = put (text "/v.kdbx") (some (record { root = some [] })) (λ p. none);
}

abbrev agent : Server (Driver Files)
agent = record {
  vault_id = text "ops";
  manager = record { driver = blank; retries = 1; configured = true; unlocked = false };
  replay = [];
  idle = some 1000;
  deadline = 1000;
  armed = true;
  stopped = false;
}

abbrev answers : Answers
answers = (text "password", text "x") ∷ []

-- A codec for texts: the bytes are the text.
abbrev plain_codec : Codec Text
plain_codec = record { marshal = λ t. ok t; unmarshal = λ b. ok b }

read_frame-write_frame_example :
    (write_frame plain_codec (text "hi") ≡ ok (frame_of (text "hi")))
    × (read_frame plain_codec (frame_of (text "hi") ++ 7 ∷ []) ≡ ok (text "hi", 7 ∷ []))
read_frame-write_frame_example =
    read_frame-write_frame plain_codec (text "hi") (text "hi") (7 ∷ [])
      (record { unmarshal-marshal = λ a b h. ap ok (sym (ok_injective h)) }) refl (omega arith)

-- Codecs that know one message.
abbrev one_message : {A : Type 0} → A → Codec A
one_message a = record { marshal = λ x. ok (1 ∷ []); unmarshal = λ b. ok a }

abbrev sendable_one : {A : Type 0} (a : A) → Sendable (one_message a) a
sendable_one a = record { payload = 1 ∷ []; marshals = refl; unmarshals = refl; fits = omega arith }

client_get-transparent_example :
    ((client_get vault
        (one_message (get_request (text "a/b")))
        (one_message (serve_request vault 5 (get_request (text "a/b")) agent).0)
        5
        (text "a/b")
        agent).0
      ≡ crossed (Manager.get vault (text "a/b") agent.manager).0)
    × ((client_get vault
          (one_message (get_request (text "a/b")))
          (one_message (serve_request vault 5 (get_request (text "a/b")) agent).0)
          5
          (text "a/b")
          agent).1.manager
        ≡ (Manager.get vault (text "a/b") agent.manager).1)
client_get-transparent_example =
    client_get-transparent vault (one_message (get_request (text "a/b")))
      (one_message (serve_request vault 5 (get_request (text "a/b")) agent).0) 5 (text "a/b") agent
      (sendable_one (get_request (text "a/b")))
      (sendable_one (serve_request vault 5 (get_request (text "a/b")) agent).0)

handle_unlock-forwards_example :
    ((handle_unlock vault (unlock_request answers) agent).1.manager.driver
      ≡ (Storage.unlock memory answers blank).1)
    × (((handle_unlock vault (unlock_request answers) agent).0.accepted ≡ true)
        ↔ ((Storage.unlock memory answers blank).0 ≡ ok tt))
unfolding Keepass.credentials collect
handle_unlock-forwards_example =
    handle_unlock-forwards vault (λ k. some (text "x")) answers agent refl refl refl refl

-- A Manager over a proxy that is connected to the agent.
abbrev near : Manager (Proxy (Driver Files))
near = record {
  driver = record (new_proxy (text "ops") (text "ops-0") blank (some agent)) { connected = true };
  retries = 3;
  configured = true;
  unlocked = true;
}

abbrev far_get : Request
far_get = get_request (join_address (text "a") (text "b"))

abbrev proxied_vault : VaultDriver (Result KeepassConfig) (Proxy (Driver Files))
proxied_vault =
    proxy vault (one_message far_get) (one_message (serve_request vault 5 far_get agent).0) true
      (λ id name. err plain) (λ s. true) 5

split_ab : parse_address (text " a/b") ≡ ok (text "a", text "b")
unfolding parse_address
split_ab = refl

proxied_get-transparent_example :
    (Manager.get proxied_vault (text " a/b") near).0
    ≡ crossed (Manager.get vault (text " a/b") agent.manager).0
proxied_get-transparent_example =
    proxied_get-transparent vault (one_message far_get)
      (one_message (serve_request vault 5 far_get agent).0) true (λ id name. err plain) (λ s. true)
      5 near agent (text " a/b") (text "a") (text "b") refl refl refl refl split_ab
      (sendable_one far_get) (sendable_one (serve_request vault 5 far_get agent).0)
