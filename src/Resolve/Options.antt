-- ===== src/Resolve/Options.antt =====
-- flexconf/resolvers.go: the options of a Loader and the process-wide resolvers. A resolver comes with
-- its scheme; a panic is `none`.
use go_flexconf.Resolve.{Loader, Resolver, dispatch}
use go_flexconf.Dict.{Dict, lookup, insert, has_key}
use go_flexconf.Dict.Laws.{lookup-insert_self}
use go_flexconf.Base.{
  Bool, List, Option, [], false, if◌then◌else◌, none, not, refl, some, some_injective, subst, true,
  ◌||◌, ◌∷◌, ◌≡◌,
}
use go_flexconf.Text.{Text, text, text_eq}
use go_flexconf.Template.{valid_scheme}

pub data LoaderOption : Type 0 where
  with_resolver : Text → Resolver → LoaderOption
  with_resolvers : List (Text × Resolver) → LoaderOption
  with_env : (Text → Option Text) → LoaderOption
  with_fs : (Text → Option Text) → LoaderOption

-- The loop of WithResolvers.
unfoldable pub resolver_set : List (Text × Resolver) → Dict Resolver → Dict Resolver
unfolding insert
resolver_set [] chosen = chosen
resolver_set ((scheme, r) ∷ rs) chosen = resolver_set rs (insert scheme r chosen)

unfoldable pub apply_option : LoaderOption → Loader → Loader
unfolding insert resolver_set
apply_option (with_resolver scheme r) l = record l { scoped = insert scheme r l.scoped }
apply_option (with_resolvers rs) l = record l { fixed = true; chosen = resolver_set rs [] }
apply_option (with_env env) l = record l { environment = env }
apply_option (with_fs read) l = record l { read_file = read }

-- With
unfoldable pub with_options : List LoaderOption → Loader → Loader
unfolding apply_option
with_options [] l = l
with_options (o ∷ opts) l = with_options opts (apply_option o l)

unfoldable pub default_scheme : Text → Bool
unfolding text_eq
default_scheme s =
    text_eq s (text "env")
    || (text_eq s (text "secret") || (text_eq s (text "file") || text_eq s (text "config")))

-- RegisterResolver
unfoldable pub register_resolver : Text → Resolver → Dict Resolver → Option (Dict Resolver)
unfolding valid_scheme default_scheme has_key insert
register_resolver scheme r registered =
    if not (valid_scheme scheme)
    then none
    else if default_scheme scheme
    then none
    else if has_key scheme registered
    then none
    else some (insert scheme r registered)

if_none-some :
    {A : Type 0} (b : Bool) {r : Option A} {a : A}
    → (if b then none else r) ≡ some a
    → (b ≡ false) × (r ≡ some a)
if_none-some true h = cc
if_none-some false h = (refl, h)

none_of :
    (a b c d : Bool) → (a || (b || (c || d))) ≡ false → (a ≡ false) × (c ≡ false) × (b ≡ false)
none_of true b c d h = cc
none_of false true c d h = cc
none_of false false true d h = cc
none_of false false false d h = (refl, refl, refl)

not_default :
    (s : Text)
    → default_scheme s ≡ false
    → (text_eq s (text "env") ≡ false)
      × (text_eq s (text "file") ≡ false)
      × (text_eq s (text "secret") ≡ false)
unfolding default_scheme
not_default s h =
    none_of (text_eq s (text "env")) (text_eq s (text "secret")) (text_eq s (text "file"))
      (text_eq s (text "config")) h

-- A resolver that could be registered process-wide is the one that answers its scheme, for every Loader
-- with the default set and no resolver of its own for the scheme: no default scheme hides it.
pub register_resolver-dispatch :
    (scheme : Text) (r : Resolver) (registered : Dict Resolver) (more : Dict Resolver) (l : Loader)
    (path file : Text)
    → register_resolver scheme r registered ≡ some more
    → l.fixed ≡ false
    → lookup scheme l.scoped ≡ none
    → dispatch (record l { registered = more }) scheme path file ≡ r path
unfolding register_resolver dispatch
register_resolver-dispatch scheme r registered more l path file h fixed scoped =
    let (valid, h1) = if_none-some (not (valid_scheme scheme)) h in
    let (apart, h2) = if_none-some (default_scheme scheme) h1 in
    let (fresh, h3) = if_none-some (has_key scheme registered) h2 in
    let (env, at_file, secret) = not_default scheme apart in
    let found : lookup scheme more ≡ some r =
      subst (λ (d : Dict Resolver). lookup scheme d ≡ some r) (some_injective h3)
        (lookup-insert_self scheme r registered) in
    simp (scoped, fixed, env, at_file, secret, found) refl
