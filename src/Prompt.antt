-- ===== src/Prompt.antt =====
-- flexprompt/prompt.go, flexprompt/prompters.go, flexprompt/singleton.go and
-- internal/agent/prompter.go: prompt requests, the shared contract check and the prompters.
-- A context is what its `Err()` returns.
pub mod Laws
pub mod Terminal
use go_flexconf.Errors.{
  Result, ok, err, Error, wraps, no_prompter, plain, prompt_unavailable, ◌>>=◌,
}
use go_flexconf.Dict.{Dict, has_key, insert, lookup}
use go_flexconf.Base.{
  List, Option, some, ℕ, Bool, [], if◌then◌else◌, ◌∷◌, is_empty, none, ◌++◌, ◌==◌, leb, map, ◌&&◌,
  ◌-◌,
}
use go_flexconf.Text.{Text}
use go_flexconf.Errors.{◌>>◌}

pub record PromptRequest : Type 0 where
  pub id : Text
  pub label : Text
  pub secret : Bool
  pub optional : Bool
  pub default_value : Text
  pub confirm : Bool

abbrev pub Answers : Type 0
Answers = Dict Text

abbrev pub Context : Type 0
Context = Option Error

unfoldable pub validate_from : Dict (Unit {0}) → List PromptRequest → Result (Unit {0})
unfolding has_key insert
validate_from seen [] = ok tt
validate_from seen (r ∷ reqs) =
    let rest = validate_from (insert r.id tt seen) reqs in
    if is_empty r.id then err plain else if has_key r.id seen then err plain else rest

-- validateRequests
unfoldable pub validate_requests : List PromptRequest → Result (Unit {0})
unfolding validate_from
validate_requests = validate_from []

abbrev pub ctx_err : Context → Result (Unit {0})
ctx_err none = ok tt
ctx_err (some e) = err e

-- The loop of the non-interactive prompters over a source of values.
unfoldable pub collect : (Text → Option Text) → List PromptRequest → Answers → Result Answers
unfolding insert
collect find [] answers = ok answers
collect find (r ∷ reqs) answers = elim (find r.id) [
  | none ↦
      let rest = collect find reqs answers in
      if r.optional then rest else err (wraps prompt_unavailable)
  | some v ↦ collect find reqs (insert r.id v answers)
]

-- NewMapPrompter(values).Dispatch
unfoldable pub map_dispatch : Dict Text → Context → List PromptRequest → Result Answers
unfolding validate_requests collect lookup
map_dispatch values ctx reqs = do
  validate_requests reqs
  ctx_err ctx
  collect (λ k. lookup k values) reqs []

-- strings.ToUpper(strings.ReplaceAll(id, "-", "_")), on ASCII text
unfoldable pub env_char : ℕ → ℕ
env_char c = if c == b'-' then b'_' else if leb b'a' c && leb c b'z' then c - 32 else c

-- NewEnvPrompter(prefix).Dispatch, over the process environment
unfoldable pub env_dispatch :
    Text → (Text → Option Text) → Context → List PromptRequest → Result Answers
unfolding validate_requests collect env_char
env_dispatch prefix environment ctx reqs = do
  validate_requests reqs
  ctx_err ctx
  collect (λ k. environment (prefix ++ map env_char k)) reqs []

-- errorPrompter.Dispatch
unfoldable pub require_none : List PromptRequest → Result Answers
require_none [] = ok []
require_none (r ∷ reqs) =
    let rest = require_none reqs in if r.optional then rest else err (wraps no_prompter)

unfoldable pub error_dispatch : List PromptRequest → Result Answers
unfolding validate_requests require_none
error_dispatch reqs = do validate_requests reqs; require_none reqs

abbrev pub Prompter : Type 0
Prompter = Context → List PromptRequest → Result Answers

-- GetPrompter, of the prompter that was set, and SetPrompter, which nil resets
unfoldable pub get_prompter : Option Prompter → Prompter
unfolding error_dispatch
get_prompter none ctx reqs = error_dispatch reqs
get_prompter (some p) ctx reqs = p ctx reqs

abbrev pub set_prompter : Option Prompter → Option Prompter → Option Prompter
set_prompter p current = p

-- replayPrompter.Dispatch: no check of the requests, and no context.
unfoldable pub replay_dispatch : Answers → List PromptRequest → Result Answers
unfolding collect lookup
replay_dispatch answers reqs = collect (λ k. lookup k answers) reqs []
