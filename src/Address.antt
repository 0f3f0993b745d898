-- ===== src/Address.antt =====
-- flexvault/address.go: `parse_address` is `ParseAddress`.
pub mod Laws
use go_flexconf.Errors.{Result, ok, err, plain}
use go_flexconf.Base.{Option, ◌++◌, some, ◌∷◌, if◌then◌else◌, is_empty, ◌||◌, none}
use go_flexconf.Text.{Text, trim_space, cut, contains_char}

abbrev check_address : Option (Text × Text) → Result (Text × Text)
check_address none = err plain
check_address (some (namespace, key)) =
    if is_empty namespace || is_empty key || contains_char b'/' key
    then err plain
    else ok (namespace, key)

unfoldable pub parse_address : Text → Result (Text × Text)
unfolding trim_space cut contains_char
parse_address addr = check_address (cut b'/' (trim_space addr))

-- ns + "/" + key
abbrev pub join_address : Text → Text → Text
join_address namespace key = namespace ++ b'/' ∷ key
