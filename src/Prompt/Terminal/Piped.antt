-- ===== src/Prompt/Terminal/Piped.antt =====
-- The terminal prompter reads its answers from an input that is not a terminal.
use go_flexconf.Prompt.Terminal.{
  Terminal, ask, ask_all, terminal_dispatch, confirmed, read, read_string, read_filling, trim_line,
  label_of, or_default,
}
use go_flexconf.Prompt.Laws.{Distinct, validate_requests_iff}
use go_flexconf.Dict.{insert}
use go_flexconf.Base.{
  All, Bool, Bool-cases, List, [], false, is_empty, refl, true, ◌++◌, ◌==◌, ◌∷◌, ◌≡◌, ◌≢◌, ap, ap₂,
  append-nil, append_assoc, arith, inl, inr, is_empty_ne_nil, none, sym, ◌∙◌,
}
use go_flexconf.Prompt.{Answers, PromptRequest}
use go_flexconf.Text.{Text, text, contains_char}
use go_flexconf.Errors.{ok}

abbrev pub flat : List Text → Text
flat [] = []
flat (s ∷ more) = s ++ flat more

-- Requests, and what is typed for each.
abbrev pub Script : Type 0
Script = List (PromptRequest × Text)

abbrev pub asked : Script → List PromptRequest
asked [] = []
asked ((r, line) ∷ s) = r ∷ asked s

abbrev pub typed : Script → Text → Text
typed [] rest = rest
typed ((r, line) ∷ s) rest = line ++ (b'\n' ∷ typed s rest)

abbrev pub answered : Script → Answers → Answers
answered [] acc = acc
answered ((r, line) ∷ s) acc = answered s (insert r.id line acc)

-- No end of a line.
abbrev pub Inner : Text → Type 0
Inner line = All (λ c. ((c == b'\n') ≡ false) × ((c == b'\r') ≡ false)) line

abbrev pub Entry : PromptRequest × Text → Type 0
Entry (r, line) = (r.confirm ≡ false) × (line ≢ []) × Inner line

read_string-line :
    (line rest : Text)
    → Inner line
    → read_string (line ++ (b'\n' ∷ rest)) ≡ (line ++ b'\n' ∷ [], rest, true)
unfolding read_string
read_string-line [] rest h = refl
read_string-line (c ∷ line) rest h = rw (read_string-line line rest h.1, h.0.0) refl

trim_line-line : (line : Text) → Inner line → trim_line (line ++ b'\n' ∷ []) ≡ line
unfolding trim_line
trim_line-line [] h = refl
trim_line-line (c ∷ line) h =
    rw (trim_line-line line h.1, h.0.0, h.0.1)
      (elim (Bool-cases (is_empty line)) [ inl e ↦ rw e refl | inr e ↦ rw e refl ])

-- What stands before a part that has an end of a line holds the first line.
cut_line :
    (line rest buffer more : Text)
    → Inner line
    → contains_char b'\n' buffer ≡ true
    → buffer ++ more ≡ line ++ (b'\n' ∷ rest)
    → (left : Text) × (buffer ≡ line ++ (b'\n' ∷ left)) × (left ++ more ≡ rest)
unfolding contains_char
cut_line line rest [] more h c e = cc
cut_line [] rest (c ∷ buffer) more h there e =
    let same : c ≡ b'\n' = cc in (buffer, ap (λ d. d ∷ buffer) same, cc)
cut_line (d ∷ line) rest (c ∷ buffer) more (h, inner) there e =
    let same : c ≡ d = cc in
    let tails : buffer ++ more ≡ line ++ (b'\n' ∷ rest) = cc in
    let inside : contains_char b'\n' buffer ≡ true = ground (arith, same, h.0, there) in
    let (left, here, after) = cut_line line rest buffer more inner inside tails in
    (left, ap₂ (λ x l. x ∷ l) same here, after)

read_filling-line :
    (line rest buffer : Text) (chunks : List Text)
    → Inner line
    → buffer ++ flat chunks ≡ line ++ (b'\n' ∷ rest)
    → (left : Text) × (more : List Text) × (read_filling buffer chunks
        ≡ ((line ++ b'\n' ∷ [], left, true), more))
      × (left ++ flat more ≡ rest)
unfolding read_filling
read_filling-line line rest buffer [] inner e = (
  rest,
  [],
  ap (λ s. (read_string s, [])) (sym (append-nil buffer) ∙ e)
      ∙ ap (λ l. (l, [])) (read_string-line line rest inner),
  append-nil rest,
)
read_filling-line line rest buffer (chunk ∷ chunks) inner e =
    elim (Bool-cases (contains_char b'\n' buffer)) [
      | inl there ↦
          let (left, here, after) =
            cut_line line rest buffer (flat (chunk ∷ chunks)) inner there e in
          (
            left,
            chunk ∷ chunks,
            rw there (
                ap (λ s. (read_string s, chunk ∷ chunks)) here
                ∙ ap (λ l. (l, chunk ∷ chunks)) (read_string-line line left inner)),
            after,
          )
      | inr absent ↦
          let (left, more, read, after) =
            read_filling-line line rest (buffer ++ chunk) chunks inner
              (append_assoc buffer chunk (flat chunks) ∙ e) in
          (left, more, rw absent read, after)
    ]

-- What an entry leaves of the input, in the reader and in the file.
abbrev Reads : Text → Terminal → Type 0
Reads rest t = (t.buffered ++ flat t.pending ≡ rest) × (t.is_terminal ≡ false)

read-line :
    (label line rest : Text) (secret : Bool) (t : Terminal)
    → Inner line
    → Reads (line ++ (b'\n' ∷ rest)) t
    → (u : Terminal) × (read label secret t ≡ (ok line, u)) × Reads rest u
unfolding read
read-line label line rest secret t inner (e, piped) =
    let (left, more, filled, after) = read_filling-line line rest t.buffered t.pending inner e in
    (
      record t { pending = more; buffered = left; printed = t.printed ++ label },
      ground (arith, filled, piped, trim_line-line line inner),
      (after, piped),
    )

or_default-line : (r : PromptRequest) (line : Text) → line ≢ [] → or_default r line ≡ line
or_default-line r [] n = absurd (n refl)
or_default-line r (c ∷ line) n = refl

ask-line :
    (r : PromptRequest) (line rest : Text) (t : Terminal)
    → Entry (r, line)
    → Reads (line ++ (b'\n' ∷ rest)) t
    → (u : Terminal) × (ask r t ≡ (ok line, u)) × Reads rest u
unfolding ask confirmed
ask-line r line rest t (once, n, inner) e =
    let (u, here, left) = read-line (label_of r ++ text ": ") line rest r.secret t inner e in
    (u, rw here (rw (or_default-line r line n, once) refl), left)

ask_all-typed :
    (s : Script) (acc : Answers) (rest : Text) (t : Terminal)
    → All Entry s
    → Reads (typed s rest) t
    → (u : Terminal) × (ask_all (λ k. none) (asked s) acc t ≡ (ok (answered s acc), u))
      × Reads rest u
unfolding ask_all
ask_all-typed [] acc rest t h e = (t, refl, e)
ask_all-typed ((r, line) ∷ s) acc rest t (h, more) e =
    let (u, here, left) = ask-line r line (typed s rest) t h e in
    let (v, there, done) = ask_all-typed s (insert r.id line acc) rest u more left in
    (v, rw (here, is_empty_ne_nil line h.1) there, done)

-- On an input that is not a terminal, with no request that wants a confirmation and a line for each
-- that is not empty, the answers are the lines in their order without their ends, secret or not, in
-- whatever pieces the input is read; what it still holds is an end of what comes after the last line,
-- of which the reader may have taken a part that is lost.
pub terminal_dispatch-typed :
    (s : Script) (rest : Text) (t : Terminal)
    → t.is_terminal ≡ false
    → Distinct (asked s)
    → All Entry s
    → flat t.pending ≡ typed s rest
    → (u : Terminal) × (lost : Text) × (terminal_dispatch (λ k. none) (asked s) t
        ≡ (ok (answered s []), u))
      × (lost ++ flat u.pending ≡ rest)
unfolding terminal_dispatch
terminal_dispatch-typed s rest t piped distinct h e =
    let (u, run, left) = ask_all-typed s [] rest (record t { buffered = [] }) h (e, piped) in
    (u, u.buffered, rw ((validate_requests_iff (asked s)).1 distinct) run, left.0)
