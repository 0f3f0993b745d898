-- ===== src/Tests/Prompting.antt =====
-- The prompters at concrete requests.
use go_flexconf.Prompt.{
  PromptRequest, map_dispatch, env_dispatch, error_dispatch, get_prompter, set_prompter,
}
use go_flexconf.Base.{Bool, List, String, [], false, none, refl, true, ◌++◌, ◌∷◌, ◌≡◌, some}
use go_flexconf.Dict.{Dict, lookup}
use go_flexconf.Text.{Text, text}
use go_flexconf.Errors.{err, ok, plain, wraps, prompt_unavailable, no_prompter}

abbrev request : String → Bool → PromptRequest
request id optional = record {
  id = text id;
  label = [];
  secret = true;
  optional = optional;
  default_value = [];
  confirm = false;
}

abbrev wanted : List PromptRequest
wanted = request "password" false ∷ request "keyfile" true ∷ []

abbrev known : Dict Text
known = (text "password", text "pw") ∷ (text "other", text "x") ∷ []

dispatch_known :
    (map_dispatch known none wanted ≡ ok ((text "password", text "pw") ∷ []))
    × (map_dispatch [] none wanted ≡ err (wraps prompt_unavailable))
    × (map_dispatch known none (wanted ++ wanted) ≡ err plain)
    × (env_dispatch
          (text "FC_")
          (λ k. lookup k ((text "FC_KEY_FILE", text "k") ∷ []))
          none
          (request "key-file" false ∷ [])
        ≡ ok ((text "key-file", text "k") ∷ []))
    × (error_dispatch wanted ≡ err (wraps no_prompter))
unfolding map_dispatch env_dispatch error_dispatch
dispatch_known = (refl, refl, refl, refl, refl)

-- No prompter was set, and one that was set was reset.
unset_prompter :
    (get_prompter none none wanted ≡ err (wraps no_prompter))
    × (get_prompter (set_prompter none (some (map_dispatch known))) none wanted
        ≡ err (wraps no_prompter))
    × (get_prompter (set_prompter (some (map_dispatch known)) none) none wanted
        ≡ ok ((text "password", text "pw") ∷ []))
unfolding get_prompter map_dispatch
unset_prompter = (refl, refl, refl)
