-- ===== src/Bind/Messages.antt =====
-- flexconf/bind.go and flexconf/node.go: the text of the error of a scalar that cannot be converted. A
-- Go type is given by its name, `quote` is strconv.Quote, and `complaint` is the error of a type's
-- UnmarshalText.
use go_flexconf.Node.{Node, Origin, Scalar, scalar_node, map_node, seq_node}
use go_flexconf.Schema.{
  GoType, Kind, duration_type, time_type, text_unmarshaler, basic, string_kind, bool_kind, int_kind,
  uint_kind, float_kind, other_kind, display_path,
}
use go_flexconf.Coerce.{Value, coerce_scalar}
use go_flexconf.Store.{Host, Store, Outcome, failed}
use go_flexconf.Bind.{mismatch, call_validate}
use go_flexconf.Binder.{bind_type, origin_text}
use go_flexconf.Text.{Text, text}
use go_flexconf.Base.{
  Option, [], if◌then◌else◌, none, some, not, refl, true, some_injective, ap, ◌++◌, ◌≡◌, sym, ◌∙◌,
}

-- nodeKind.String
unfoldable pub kind_text : Node → Text
kind_text (map_node o fs) = text "map"
kind_text (seq_node o items) = text "sequence"
kind_text (scalar_node o sc) = text "scalar"

-- Where a node came from
abbrev origin_of : Node → Origin
origin_of (scalar_node o sc) = o
origin_of (map_node o fs) = o
origin_of (seq_node o items) = o

-- How far every message of a mismatch goes alike.
abbrev located : Host → Node → Text → Text
located host n path =
    origin_text host (origin_of n)
    ++ text ": "
    ++ display_path path
    ++ text ": flexconf: value does not fit field type: "

-- The value, as the message of a mismatch has it
unfoldable pub shown_value : (Text → Text) → Node → Text
unfolding kind_text
shown_value quote (scalar_node o sc) =
    if sc.secret then text "(redacted secret)" else quote sc.value
shown_value quote n = text "a " ++ kind_text n

-- mismatch
unfoldable pub mismatch_text : Host → (Text → Text) → Node → Text → Text → Text → Text
unfolding shown_value display_path
mismatch_text host quote n path type cause =
    located host n path
    ++ text "cannot bind "
    ++ shown_value quote n
    ++ text " to "
    ++ type
    ++ text ": "
    ++ cause

-- The errors of coerceScalar
abbrev coerce_text : Text → Kind → Text
coerce_text type string_kind = []
coerce_text type bool_kind = text "invalid bool"
coerce_text type (int_kind bits) = text "invalid integer"
coerce_text type (uint_kind bits) = text "invalid unsigned integer"
coerce_text type (float_kind bits) = text "invalid float"
coerce_text type other_kind = text "unsupported target type " ++ type

abbrev unless : {A : Type 0} → Option A → Text → Option Text
unless (some a) message = none
unless none message = some message

-- A type to which package flexconf converts a text itself.
pub data Converts : GoType → Type 0 where
  to_duration : Converts duration_type
  to_time : Converts time_type
  to_basic : {name : Text} {k : Kind} → Converts (basic name k)

module _ (host : Host) (quote : Text → Text) (complaint : Text → Text → Text) where
  abbrev says : Node → Text → Text → Text → Text
  says n path type cause = mismatch_text host quote n path type cause

  -- bindDuration, bindTime, and the branches of bindValue that ask for a scalar: the message when
  -- the text is not converted
  unfoldable pub conversion_text : GoType → Value → Origin → Scalar → Text → Option Text
  unfolding coerce_scalar mismatch_text
  conversion_text duration_type v o sc path =
      unless (host.parse_duration sc.value)
        (says (scalar_node o sc) path (text "time.Duration") (text "invalid duration"))
  conversion_text time_type v o sc path =
      unless (host.parse_time sc.value)
        (says (scalar_node o sc) path (text "time.Time") (text "invalid RFC 3339 timestamp"))
  conversion_text (text_unmarshaler name) v o sc path =
      if not (host.unmarshal_text name sc.value v).1
      then some (says (scalar_node o sc) path name (complaint name sc.value))
      else none
  conversion_text (basic name k) v o sc path =
      unless (coerce_scalar host.floats k sc.value)
        (says (scalar_node o sc) path name (coerce_text name k))
  conversion_text t v o sc path = none

  message-redacted :
      (o : Origin) (sc sc' : Scalar) (path type cause : Text)
      → sc.secret ≡ true
      → sc'.secret ≡ true
      → says (scalar_node o sc) path type cause ≡ says (scalar_node o sc') path type cause
  unfolding mismatch_text shown_value
  message-redacted o sc sc' path type cause s s' = rw (s, s') refl

  both_say :
      {A : Type 0} (r r' : Option A) {message message' m m' : Text}
      → message ≡ message'
      → unless r message ≡ some m
      → unless r' message' ≡ some m'
      → m ≡ m'
  both_say none none same h h' = sym (some_injective h) ∙ same ∙ some_injective h'
  both_say (some a) r' same h h' = cc
  both_say none (some a) same h h' = cc

  unless-none :
      {A : Type 0} (r : Option A) (message : Text) {m : Text} → unless r message ≡ some m → r ≡ none
  unless-none none message h = refl
  unless-none (some a) message h = cc

  same_text :
      {t : GoType} (v : Value) (o : Origin) (sc sc' : Scalar) (path : Text) {m m' : Text}
      → Converts t
      → sc.secret ≡ true
      → sc'.secret ≡ true
      → conversion_text t v o sc path ≡ some m
      → conversion_text t v o sc' path ≡ some m'
      → m ≡ m'
  unfolding conversion_text
  same_text v o sc sc' path to_duration s s' h h' =
      both_say _ _ (message-redacted o sc sc' path _ _ s s') h h'
  same_text v o sc sc' path to_time s s' h h' =
      both_say _ _ (message-redacted o sc sc' path _ _ s s') h h'
  same_text v o sc sc' path (to_basic {name} {k}) s s' h h' =
      both_say _ _ (message-redacted o sc sc' path name (coerce_text name k) s s') h h'

  conversion_text-fails :
      {t : GoType} (v : Value) (o : Origin) (sc : Scalar) (path : Text) (st : Store) {m : Text}
      → Converts t
      → conversion_text t v o sc path ≡ some m
      → bind_type host (scalar_node o sc) [] [] t v path st ≡ failed v st mismatch
  unfolding conversion_text bind_type
  conversion_text-fails v o sc path st to_duration h =
      rw (unless-none (host.parse_duration sc.value) _ h) refl
  conversion_text-fails v o sc path st to_time h =
      rw (unless-none (host.parse_time sc.value) _ h) refl
  conversion_text-fails v o sc path st (to_basic {name} {k}) h =
      ap
        (λ (r : Option Value). elim r as (λ r. Outcome) [
          | none ↦ failed v st mismatch
          | some w ↦ call_validate host (basic name k) w st
        ])
        (unless-none (coerce_scalar host.floats k sc.value) _ h)

  -- When a secret is not converted to a duration, a time or a basic kind, binding it fails as a
  -- mismatch and leaves its target, and the message is that of any other secret of the same origin,
  -- path and type that is not converted either: it says nothing of the value.
  pub secret_mismatch :
      (t : GoType) (v : Value) (o : Origin) (sc sc' : Scalar) (path : Text) (st : Store)
      {m m' : Text}
      → Converts t
      → sc.secret ≡ true
      → sc'.secret ≡ true
      → conversion_text t v o sc path ≡ some m
      → conversion_text t v o sc' path ≡ some m'
      → (bind_type host (scalar_node o sc) [] [] t v path st ≡ failed v st mismatch) × (m ≡ m')
  secret_mismatch t v o sc sc' path st c s s' h h' =
      (conversion_text-fails v o sc path st c h, same_text v o sc sc' path c s s' h h')
