-- ===== src/Prompt/Terminal.antt =====
-- flexprompt/prompters.go: the prompter that asks on a terminal. `Terminal` is the input file and the
-- output: what one read of the file after the other still returns, how that ends, and what
-- term.ReadPassword returns from call to call. `buffered` is what the reader of a Dispatch has read and
-- not given out; it goes with the reader. The context is what its `Err()` returns just before the request of an identifier.
pub mod Answering
pub mod Piped
use go_flexconf.Prompt.{PromptRequest, Answers, Context, validate_requests, ctx_err}
use go_flexconf.Action.{Action, ◌>>=◌, ◌>>◌}
use go_flexconf.Errors.{Result, ok, err, wraps, plain, prompt_cancelled, prompt_unavailable}
use go_flexconf.Text.{Text, text, text_eq, contains_char}
use go_flexconf.Dict.{insert}
use go_flexconf.Base.{
  Bool, List, Option, [], ◌∷◌, ◌++◌, true, false, none, some, if◌then◌else◌, is_empty, not, ◌&&◌,
  ◌||◌, ◌==◌,
}

pub record Terminal : Type 0 where
  pub pending : List Text
  pub buffered : Text
  pub broken : Bool
  pub is_terminal : Bool
  pub passwords : List (Option Text)
  pub printed : Text

-- reader.ReadString('\n'): the line with its end, what is left, and whether the end was found
abbrev pub Line : Type 0
Line = Text × Text × Bool

unfoldable pub read_string : Text → Line
read_string [] = ([], [], false)
read_string (c ∷ s) =
    let (line, rest, found) = read_string s in
    if c == b'\n' then (c ∷ [], s, true) else (c ∷ line, rest, found)

-- ReadString on a reader that holds `buffer`: the file is read while there is no end of a line.
unfoldable pub read_filling : Text → List Text → Line × List Text
unfolding read_string contains_char
read_filling buffer [] = (read_string buffer, [])
read_filling buffer (chunk ∷ more) =
    let filled = read_filling (buffer ++ chunk) more in
    if contains_char b'\n' buffer then (read_string buffer, chunk ∷ more) else filled

-- strings.TrimRight(line, "\r\n")
unfoldable pub trim_line : Text → Text
trim_line [] = []
trim_line (c ∷ s) =
    let rest = trim_line s in if is_empty rest && (c == b'\r' || c == b'\n') then [] else c ∷ rest

abbrev shows : Text → Terminal → Terminal
shows s t = record t { printed = t.printed ++ s }

-- term.ReadPassword
abbrev masked : List (Option Text) → Action Terminal Text
masked [] t = (err plain, t)
masked (none ∷ more) t = (err plain, record t { passwords = more })
masked (some s ∷ more) t = (ok s, record t { passwords = more })

abbrev read_line : Line × List Text → Action Terminal Text
read_line ((line, rest, found), more) t =
    if not found && t.broken
    then (err plain, record t { pending = more; buffered = rest })
    else if not found && is_empty line
    then (err (wraps prompt_cancelled), record t { pending = more; buffered = rest })
    else (ok (trim_line line), record t { pending = more; buffered = rest })

-- cliPrompter.read
unfoldable pub read : Text → Bool → Action Terminal Text
unfolding read_filling trim_line
read label secret t =
    if secret && t.is_terminal
    then masked t.passwords (shows (b'\n' ∷ []) (shows label t))
    else read_line (read_filling t.buffered t.pending) (shows label t)

abbrev pub label_of : PromptRequest → Text
label_of r =
    (if is_empty r.label then r.id else r.label)
    ++ (if not (is_empty r.default_value) && not r.secret
        then text " [" ++ (r.default_value ++ text "]")
        else [])

-- What an entry stands for: the default, when nothing was typed.
abbrev pub or_default : PromptRequest → Text → Text
or_default r v =
    if is_empty v && (not (is_empty r.default_value) && not r.secret) then r.default_value else v

abbrev pub lift : {A : Type 0} → Result A → Action Terminal A
lift r t = (r, t)

abbrev pub matched : Text → Text → Result Text
matched v again = if text_eq again v then ok v else err plain

unfoldable pub confirmed : PromptRequest → Text → Action Terminal Text
unfolding read text_eq
confirmed r v =
    if r.confirm && not (is_empty v)
    then (read (text "Confirm " ++ (label_of r ++ text ": ")) r.secret >>= λ again.
        lift (matched v again))
    else lift (ok v)

-- cliPrompter.ask
unfoldable pub ask : PromptRequest → Action Terminal Text
unfolding read confirmed
ask r = read (label_of r ++ text ": ") r.secret >>= λ v. confirmed r (or_default r v)

abbrev pub keep : PromptRequest → Answers → Text → Result Answers
keep r answers v =
    if is_empty v
    then if r.optional then ok answers else err (wraps prompt_unavailable)
    else ok (insert r.id v answers)

unfoldable pub ask_all : (Text → Context) → List PromptRequest → Answers → Action Terminal Answers
unfolding ask insert
ask_all ctx [] answers = lift (ok answers)
ask_all ctx (r ∷ reqs) answers =
    lift (ctx_err (ctx r.id))
    >> (ask r >>= λ v. lift (keep r answers v) >>= λ kept. ask_all ctx reqs kept)

-- bufio.NewReader
abbrev pub new_reader : Action Terminal (Unit {0})
new_reader t = (ok tt, record t { buffered = [] })

-- cliPrompter.Dispatch
unfoldable pub terminal_dispatch : (Text → Context) → List PromptRequest → Action Terminal Answers
unfolding validate_requests ask_all
terminal_dispatch ctx reqs = lift (validate_requests reqs) >> (new_reader >> ask_all ctx reqs [])
