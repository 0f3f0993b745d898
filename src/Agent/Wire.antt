-- ===== src/Agent/Wire.antt =====
-- internal/agent/protocol.go: requests, responses, error codes and frames. The JSON codec is
-- encoding/json's, a parameter. The text of an error message is not modelled.
pub mod Codes
pub mod Frames
use go_flexconf.Errors.{
  Result, ok, err, Error, wraps, plain, ◌>>=◌, ◌>>◌, locked, not_found, read_only, auth,
  unsupported, not_configured,
}
use go_flexconf.Prompt.{Answers}
use go_flexconf.Base.{
  Bool, List, [], drop, false, if◌then◌else◌, length, ltb, take, ℕ, ◌%◌, ◌*◌, ◌++◌, ◌+◌, ◌/◌, ◌^◌,
  ◌∷◌, ◌≡◌, String,
}
use go_flexconf.Text.{Text, text, text_eq}
use go_flexconf.Base.Int.{ℤ, pos}

pub record Request : Type 0 where
  pub op : Text
  pub addr : Text
  pub value : Text
  pub namespace : Text
  pub answers : Answers

-- The requests that the client sends.
abbrev pub request_of : String → Request
request_of op = record { op = text op; addr = []; value = []; namespace = []; answers = [] }

abbrev pub get_request : Text → Request
get_request addr = record (request_of "get") { addr = addr }

abbrev pub set_request : Text → Text → Request
set_request addr value = record (request_of "set") { addr = addr; value = value }

abbrev pub list_request : Text → Request
list_request ns = record (request_of "list") { namespace = ns }

abbrev pub status_request : Request
status_request = request_of "status"

abbrev pub lock_request : Request
lock_request = request_of "lock"

abbrev pub unlock_request : Answers → Request
unlock_request answers = record (request_of "unlock") { answers = answers }

-- `accepted` is the field OK; the durations are in milliseconds.
pub record Response : Type 0 where
  pub accepted : Bool
  pub value : Text
  pub list : List Text
  pub code : Text
  pub unlocked : Bool
  pub vault_id : Text
  pub idle_left : ℤ
  pub writable : Bool

abbrev pub empty_response : Response
empty_response = record {
  accepted = false;
  value = [];
  list = [];
  code = [];
  unlocked = false;
  vault_id = [];
  idle_left = pos 0;
  writable = false;
}

-- errorCode
unfoldable pub error_code : Error → Text
error_code (wraps locked) = text "locked"
error_code (wraps not_found) = text "notfound"
error_code (wraps read_only) = text "readonly"
error_code (wraps auth) = text "auth"
error_code (wraps unsupported) = text "unsupported"
error_code (wraps not_configured) = text "notconfigured"
error_code _ = []

-- codeError
unfoldable pub code_error : Text → Error
unfolding text_eq
code_error code =
    if text_eq code (text "locked")
    then wraps locked
    else if text_eq code (text "notfound")
    then wraps not_found
    else if text_eq code (text "readonly")
    then wraps read_only
    else if text_eq code (text "auth")
    then wraps auth
    else if text_eq code (text "unsupported")
    then wraps unsupported
    else if text_eq code (text "notconfigured")
    then wraps not_configured
    else plain

abbrev pub Bytes : Type 0
Bytes = List ℕ

-- 16 << 20
abbrev pub max_frame : ℕ
max_frame = 16 * 2 ^ 20

-- binary.BigEndian.PutUint32
abbrev pub put_uint32 : ℕ → Bytes
put_uint32 n = (n / 2 ^ 24 % 256) ∷ (n / 2 ^ 16 % 256) ∷ (n / 2 ^ 8 % 256) ∷ (n % 256) ∷ []

-- binary.BigEndian.Uint32
abbrev pub uint32 : ℕ → ℕ → ℕ → ℕ → ℕ
uint32 a b c d = a * 2 ^ 24 + b * 2 ^ 16 + c * 2 ^ 8 + d

-- What encoding/json does for one message type.
pub record Codec (A : Type 0) : Type 0 where
  pub marshal : A → Result Bytes
  pub unmarshal : Bytes → Result A

-- The contract of the codec for the messages that are exchanged.
pub record ReadsBack {A : Type 0} (c : Codec A) : Type 0 where
  pub unmarshal-marshal : (a : A) (b : Bytes) → c.marshal a ≡ ok b → c.unmarshal b ≡ ok a

module _ {A : Type 0} (c : Codec A) where
  -- What writeFrame appends to the connection.
  unfoldable pub write_frame : A → Result Bytes
  write_frame v = do payload ← c.marshal v; ok (put_uint32 (length payload % 2 ^ 32) ++ payload)

  abbrev decoded : Result A → Bytes → Result (A × Bytes)
  decoded r rest = do a ← r; ok (a, rest)

  -- The payload of `n` bytes, with what stays on the connection; io.ReadFull fails on fewer.
  abbrev read_payload : ℕ → Bytes → Result (A × Bytes)
  read_payload n rest =
      if ltb max_frame n
      then err plain
      else if ltb (length rest) n
      then err plain
      else decoded (c.unmarshal (take n rest)) (drop n rest)

  -- readFrame
  unfoldable pub read_frame : Bytes → Result (A × Bytes)
  read_frame (p ∷ q ∷ r ∷ s ∷ rest) = read_payload (uint32 p q r s) rest
  read_frame _ = err plain
