-- ===== src/Tests/Terminals.antt =====
-- The terminal prompter at concrete inputs.
use go_flexconf.Prompt.{PromptRequest, Answers}
use go_flexconf.Prompt.Terminal.{Terminal, terminal_dispatch}
use go_flexconf.Prompt.Terminal.Answering.{Answered, terminal_dispatch-Answered}
use go_flexconf.Prompt.Terminal.Piped.{
  Script, asked, flat, answered, Entry, terminal_dispatch-typed,
}
use go_flexconf.Prompt.Laws.{requested}
use go_flexconf.Base.{All, List, Option, [], false, none, refl, some, true, ◌∷◌, ◌++◌, ◌≡◌}
use go_flexconf.Errors.{Error, err, ok, plain, wraps, prompt_cancelled}
use go_flexconf.Text.{Text, text, text_eq}
use go_flexconf.Dict.{lookup}

abbrev piped_in : List Text → Terminal
piped_in chunks = record {
  pending = chunks;
  buffered = [];
  broken = false;
  is_terminal = false;
  passwords = [];
  printed = [];
}

abbrev piped : Text → Terminal
piped s = piped_in (s ∷ [])

abbrev masking : List (Option Text) → Terminal
masking entries = record {
  pending = [];
  buffered = [];
  broken = false;
  is_terminal = true;
  passwords = entries;
  printed = [];
}

abbrev pin : PromptRequest
pin = record {
  id = text "pin";
  label = text "PIN";
  secret = true;
  optional = false;
  default_value = [];
  confirm = true;
}

abbrev user : PromptRequest
user = record {
  id = text "user";
  label = [];
  secret = false;
  optional = false;
  default_value = text "me";
  confirm = false;
}

abbrev hint : PromptRequest
hint = record {
  id = text "hint";
  label = [];
  secret = false;
  optional = true;
  default_value = [];
  confirm = false;
}

abbrev never : Text → Option Error
never k = none

-- Masked entries that match and that do not, a default, an empty optional entry, and a closed input.
dispatch_terminal :
    ((terminal_dispatch never (pin ∷ []) (masking (some (text "12") ∷ some (text "12") ∷ []))).0
      ≡ ok ((text "pin", text "12") ∷ []))
    × ((terminal_dispatch never (pin ∷ []) (masking (some (text "12") ∷ some (text "21") ∷ []))).0
        ≡ err plain)
    × ((terminal_dispatch never (user ∷ hint ∷ []) (piped (10 ∷ 13 ∷ 10 ∷ []))).0
        ≡ ok ((text "user", text "me") ∷ []))
    × ((terminal_dispatch never (user ∷ []) (piped [])).0 ≡ err (wraps prompt_cancelled))
unfolding terminal_dispatch
dispatch_terminal = (refl, refl, refl, refl)

abbrev answered_pin : Answers
answered_pin = (text "pin", text "12") ∷ []

masked_pin :
    terminal_dispatch never (pin ∷ []) (masking (some (text "12") ∷ some (text "12") ∷ []))
    ≡ (ok answered_pin, record (masking []) { printed = text "PIN: \nConfirm PIN: \n" })
unfolding terminal_dispatch
masked_pin = refl

terminal_dispatch-Answered_example :
    All (Answered answered_pin) (pin ∷ [])
    × ((k : Text) → requested k (pin ∷ []) ≡ false → lookup k answered_pin ≡ none)
terminal_dispatch-Answered_example =
    terminal_dispatch-Answered never (pin ∷ []) (masking (some (text "12") ∷ some (text "12") ∷ []))
      masked_pin

abbrev script : Script
script = (user, text "ann") ∷ (hint, text "dog") ∷ []

script-Entries : All Entry script
script-Entries = (
  (refl, (λ e. cc), ((refl, refl), ((refl, refl), ((refl, refl), tt)))),
  ((refl, (λ e. cc), ((refl, refl), ((refl, refl), ((refl, refl), tt)))), tt),
)

abbrev in_pieces : List Text
in_pieces = text "an" ∷ text "n\ndog\nmo" ∷ text "re" ∷ []

terminal_dispatch-typed_example :
    (u : Terminal) × (lost : Text) × (terminal_dispatch never (asked script) (piped_in in_pieces)
      ≡ (ok (answered script []), u))
    × (lost ++ flat u.pending ≡ text "more")
unfolding text_eq
terminal_dispatch-typed_example =
    terminal_dispatch-typed script (text "more") (piped_in in_pieces) refl
      ((λ e. cc), refl, ((λ e. cc), refl, tt)) script-Entries refl

-- Of two lines that come in one read, the second Dispatch finds none.
second_dispatch_fails :
    let (first, t) = terminal_dispatch never (hint ∷ []) (piped (text "one\ntwo\n")) in
    (first ≡ ok ((text "hint", text "one") ∷ []))
    × ((terminal_dispatch never (hint ∷ []) t).0 ≡ err (wraps prompt_cancelled))
unfolding terminal_dispatch
second_dispatch_fails = (refl, refl)
