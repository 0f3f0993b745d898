-- ===== src/Tests/Resolving.antt =====
-- A scalar with an environment variable and a secret.
use go_flexconf.Resolve.{Resolver}
use go_flexconf.Resolve.Options.{with_resolvers, with_options, register_resolver}
use go_flexconf.Resolve.{Loader, resolve_scalar, static}
use go_flexconf.Template.{Segment, literal_segment, token_segment}
use go_flexconf.Node.{Scalar}
use go_flexconf.Base.{List, [], false, none, refl, true, ◌∷◌, ◌≡◌, some}
use go_flexconf.Text.{Text, text}
use go_flexconf.Errors.{err, ok, wraps, env_not_set, unknown_scheme, include_embedded}
use go_flexconf.Dict.{lookup, Dict}

abbrev loader : Loader
loader = record {
  scoped = [];
  fixed = false;
  chosen = [];
  registered = [];
  environment = λ k. lookup k ((text "USER", text "root") ∷ []);
  read_file = λ p. none;
  resolve_secret = λ p. ok (text "pw");
  is_abs = λ p. true;
  beside = λ f p. p;
}

abbrev fixed_loader : Loader
fixed_loader = record loader { fixed = true }

abbrev scalar : Text → Scalar
scalar v = record { value = v; tag = text "!!str"; secret = false; substituted = false }

abbrev login : Text
login = text "$(env:USER):$(secret:db/pw)"

abbrev login_segments : List Segment
login_segments =
    token_segment (text "env") (text "USER")
    ∷ literal_segment (text ":")
    ∷ token_segment (text "secret") (text "db/pw")
    ∷ []

abbrev resolved_login : Scalar
resolved_login = record {
  value = text "root:pw";
  tag = text "!!str";
  secret = true;
  substituted = true;
}

resolve_errors :
    (resolve_scalar loader [] (scalar (text "$(env:NOPE)")) ≡ err (wraps env_not_set))
    × (resolve_scalar loader [] (scalar (text "$(vault:x)")) ≡ err (wraps unknown_scheme))
    × (resolve_scalar loader [] (scalar (text "a$(config:x.yaml)")) ≡ err (wraps include_embedded))
    × (resolve_scalar fixed_loader [] (scalar login) ≡ err (wraps unknown_scheme))
unfolding resolve_scalar
resolve_errors = (refl, refl, refl, refl)

resolve_escape : resolve_scalar fixed_loader [] (scalar (text "$$(x)")) ≡ ok (scalar (text "$(x)"))
unfolding resolve_scalar
resolve_escape = refl

-- A process-wide resolver for another scheme.
abbrev upper : Resolver
upper = λ path. ok (text "X")

abbrev with_upper : Dict Resolver
with_upper = (text "up", upper) ∷ []

register_upper : register_resolver (text "up") upper [] ≡ some with_upper
unfolding register_resolver
register_upper = refl

register_env : register_resolver (text "env") upper [] ≡ none
unfolding register_resolver
register_env = refl

replaced_is_static : static (with_options (with_resolvers [] ∷ []) loader) ≡ true
unfolding with_options static
replaced_is_static = refl

no_scoped : lookup (text "up") loader.scoped ≡ none
unfolding lookup
no_scoped = refl
