-- ===== src/Tests/Scanning.antt =====
-- The scanner and the address parser at concrete strings.
use go_flexconf.Template.{scan_tokens, Segment, literal_segment, token_segment}
use go_flexconf.Template.RoundTrip.{IsScanned, render, scan_tokens-render}
use go_flexconf.Base.{List, [], refl, ◌∷◌, ◌≡◌}
use go_flexconf.Text.{Text, is_space, text}
use go_flexconf.Errors.{err, ok, plain, wraps, bad_token}
use go_flexconf.Address.{parse_address}
use go_flexconf.Template.Sound.{scan_tokens-IsScanned}

abbrev url : Text
url = text "https://$$(x)$(env:HOST)/$(file:a b)"

abbrev url_segments : List Segment
url_segments =
    literal_segment (text "https://$(x)")
    ∷ token_segment (text "env") (text "HOST")
    ∷ literal_segment (text "/")
    ∷ token_segment (text "file") (text "a b")
    ∷ []

scan_url : scan_tokens url ≡ ok url_segments
unfolding scan_tokens
scan_url = refl

scan_errors :
    (scan_tokens (text "a$(env") ≡ err (wraps bad_token))
    × (scan_tokens (text "$(env)") ≡ err (wraps bad_token))
    × (scan_tokens (text "$(Env:X)") ≡ err (wraps bad_token))
    × (scan_tokens (text "$ (") ≡ ok (literal_segment (text "$ (") ∷ []))
unfolding scan_tokens
scan_errors = (refl, refl, refl, refl)

scan_tokens-IsScanned_example : IsScanned url_segments × (render url_segments ≡ url)
scan_tokens-IsScanned_example = scan_tokens-IsScanned url scan_url

scan_tokens-render_example : scan_tokens (render url_segments) ≡ ok url_segments
scan_tokens-render_example = scan_tokens-render (scan_tokens-IsScanned url scan_url).0

abbrev padded : Text
padded = text " artifactory/token\n"

parse_padded : parse_address padded ≡ ok (text "artifactory", text "token")
unfolding parse_address is_space
parse_padded = refl

parse_errors :
    (parse_address (text "token") ≡ err plain)
    × (parse_address (text "/token") ≡ err plain)
    × (parse_address (text "a/b/c") ≡ err plain)
unfolding parse_address is_space
parse_errors = (refl, refl, refl)
