-- ===== src/Tests/Messages.antt =====
-- The messages of secrets that are not converted.
use go_flexconf.Tests.Loading.{host, store}
use go_flexconf.Bind.{mismatch}
use go_flexconf.Bind.Messages.{conversion_text, secret_mismatch, to_basic}
use go_flexconf.Binder.{bind_type}
use go_flexconf.Coerce.{nil_value}
use go_flexconf.Node.{Origin, Scalar, scalar_node}
use go_flexconf.Schema.{GoType, basic, int_kind, text_unmarshaler}
use go_flexconf.Store.{failed}
use go_flexconf.Text.{Text, text}
use go_flexconf.Base.{[], refl, some, true, ◌++◌, ◌≡◌}

abbrev port_origin : Origin
port_origin = record { file = text "app.yaml"; line = 3 }

abbrev secret_of : Text → Scalar
secret_of s = record { value = s; tag = []; secret = true; substituted = true }

abbrev complains : Text → Text → Text
complains name s = text "bad " ++ s

abbrev port_type : GoType
port_type = basic (text "int") (int_kind 64)

abbrev refused_text : Text
refused_text =
    text "app.yaml:"
    ++ host.itoa 3
    ++ text
        ": port: flexconf: value does not fit field type: cannot bind (redacted secret) to int: invalid integer"

said_of :
    (conversion_text host
        (λ s. s)
        complains
        port_type
        nil_value
        port_origin
        (secret_of (text "hunter2"))
        (text "port")
      ≡ some refused_text)
    × (conversion_text host
          (λ s. s)
          complains
          port_type
          nil_value
          port_origin
          (secret_of (text "x"))
          (text "port")
        ≡ some refused_text)
unfolding conversion_text
said_of = (refl, refl)

secret_mismatch_example :
    (bind_type host
        (scalar_node port_origin (secret_of (text "hunter2")))
        []
        []
        port_type
        nil_value
        (text "port")
        store
      ≡ failed nil_value store mismatch)
    × (refused_text ≡ refused_text)
secret_mismatch_example =
    secret_mismatch host (λ s. s) complains port_type nil_value port_origin
      (secret_of (text "hunter2")) (secret_of (text "x")) (text "port") store to_basic refl refl
      said_of.0 said_of.1

-- The error of an UnmarshalText stands in the message as it is.
hook_tells :
    conversion_text host
      (λ s. s)
      complains
      (text_unmarshaler (text "T"))
      nil_value
      port_origin
      (secret_of (text "hunter2"))
      (text "port")
    ≡ some (
        text "app.yaml:"
        ++ host.itoa 3
        ++ text
            ": port: flexconf: value does not fit field type: cannot bind (redacted secret) to T: bad hunter2")
unfolding conversion_text
hook_tells = refl
