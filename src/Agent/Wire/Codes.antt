-- ===== src/Agent/Wire/Codes.antt =====
-- The sentinels that cross the wire.
use go_flexconf.Errors.{
  Error, plain, panics, wraps, locked, not_found, read_only, auth, unsupported, not_configured,
}
use go_flexconf.Agent.Wire.{code_error, error_code}
use go_flexconf.Base.{refl, ◌≡◌}

-- The sentinels of the vault that `errors.Is` still finds on the client's side.
abbrev pub crosses : Error → Error
crosses (wraps locked) = wraps locked
crosses (wraps not_found) = wraps not_found
crosses (wraps read_only) = wraps read_only
crosses (wraps auth) = wraps auth
crosses (wraps unsupported) = wraps unsupported
crosses (wraps not_configured) = wraps not_configured
crosses _ = plain

-- The code of an error is read back as the same vault sentinel; any other error is read back as
-- one that wraps none.
pub code_error-error_code : (e : Error) → code_error (error_code e) ≡ crosses e
unfolding code_error error_code
code_error-error_code (wraps locked) = refl
code_error-error_code (wraps _) = refl
code_error-error_code plain = refl
code_error-error_code panics = refl
