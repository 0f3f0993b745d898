-- ===== src/Prompt/Terminal/Answering.antt =====
-- What the terminal prompter answers.
use go_flexconf.Prompt.Terminal.{
  Terminal, ask, ask_all, terminal_dispatch, keep, lift, new_reader, confirmed, matched, or_default,
  label_of, read,
}
use go_flexconf.Prompt.Laws.{requested, Distinct, validate_requests_iff}
use go_flexconf.Action.{>>=-returns}
use go_flexconf.Base.{
  All, Bool-cases, List, [], ap, false, inl, inr, none, refl, some, sym, true, ◌∙◌, ◌∷◌, ◌≡◌, ◌≢◌,
  ◌⊎◌, false≢true, ◌++◌, Bool, arith, ◌||◌,
}
use go_flexconf.Prompt.{Answers, Context, PromptRequest, ctx_err, validate_requests}
use go_flexconf.Text.{Text, text_eq, text}
use go_flexconf.Errors.{err_ne_ok, ok, ok_injective}
use go_flexconf.Dict.{insert, lookup}
use go_flexconf.Dict.Laws.{lookup-insert, lookup-insert_self}
use go_flexconf.Text.Laws.{text_eq_refl, text_eq_iff}
use go_flexconf.Prompt.Terminal.Piped.{asked}

-- A request has a value that is not empty, or it is optional and has none.
abbrev pub Answered : Answers → PromptRequest → Type 0
Answered answers r =
    ((r.optional ≡ true) × (lookup r.id answers ≡ none))
    ⊎ ((v : Text) × (lookup r.id answers ≡ some v) × (v ≢ []))

abbrev Kept : PromptRequest → Answers → Answers → Type 0
Kept r acc kept =
    ((r.optional ≡ true) × (kept ≡ acc)) ⊎ ((v : Text) × (kept ≡ insert r.id v acc) × (v ≢ []))

keep-Kept :
    (r : PromptRequest) (acc : Answers) (v : Text) {kept : Answers}
    → keep r acc v ≡ ok kept
    → Kept r acc kept
keep-Kept r acc [] h = elim (Bool-cases r.optional) [
  | inl o ↦ inl (o, sym (ok_injective (rw o at h)))
  | inr n ↦ absurd (err_ne_ok (rw n at h))
]
keep-Kept r acc (c ∷ v) h = inr (c ∷ v, sym (ok_injective h), λ e. cc)

ask_all-step :
    (ctx : Text → Context) (r : PromptRequest) (reqs : List PromptRequest) (acc : Answers)
    (t : Terminal) {t' : Terminal} {answers : Answers}
    → ask_all ctx (r ∷ reqs) acc t ≡ (ok answers, t')
    → (kept : Answers) × (u : Terminal) × Kept r acc kept
      × (ask_all ctx reqs kept u ≡ (ok answers, t'))
unfolding ask_all
ask_all-step ctx r reqs acc t h =
    let (a, t1, e1, h1) = >>=-returns (lift (ctx_err (ctx r.id))) _ t h in
    let (v, t2, e2, h2) = >>=-returns (ask r) _ t1 h1 in
    let (kept, t3, e3, h3) = >>=-returns (lift (keep r acc v)) _ t2 h2 in
    (kept, t3, keep-Kept r acc v (ap (λ p. p.0) e3), h3)

Kept-lookup :
    (r : PromptRequest) (acc kept : Answers) (k : Text)
    → text_eq r.id k ≡ false
    → Kept r acc kept
    → lookup k kept ≡ lookup k acc
Kept-lookup r acc kept k d (inl (o, e)) = rw e refl
Kept-lookup r acc kept k d (inr (v, e, n)) = rw (e, lookup-insert, d) refl

or_false_parts : (a b : Bool) → (a || b) ≡ false → (a ≡ false) × (b ≡ false)
or_false_parts a b h = ground arith

ask_all-other :
    (ctx : Text → Context) (reqs : List PromptRequest) (acc : Answers) (t : Terminal)
    {t' : Terminal} {answers : Answers} (k : Text)
    → requested k reqs ≡ false
    → ask_all ctx reqs acc t ≡ (ok answers, t')
    → lookup k answers ≡ lookup k acc
unfolding ask_all
ask_all-other ctx [] acc t k d h = cc
ask_all-other ctx (r ∷ reqs) acc t k d h =
    let (kept, u, step, rest) = ask_all-step ctx r reqs acc t h in
    let (here, there) = or_false_parts (text_eq r.id k) (requested k reqs) d in
    ask_all-other ctx reqs kept u k there rest ∙ Kept-lookup r acc kept k here step

Kept-Answered :
    (r : PromptRequest) (acc kept answers : Answers)
    → lookup r.id acc ≡ none
    → lookup r.id answers ≡ lookup r.id kept
    → Kept r acc kept
    → Answered answers r
Kept-Answered r acc kept answers fresh same (inl (o, e)) = inl (o, same ∙ rw e fresh)
Kept-Answered r acc kept answers fresh same (inr (v, e, n)) =
    inr (v, same ∙ rw e (lookup-insert_self r.id v acc), n)

abbrev Fresh : Answers → List PromptRequest → Type 0
Fresh acc reqs = (k : Text) → requested k reqs ≡ true → lookup k acc ≡ none

id_apart :
    (r : PromptRequest) (reqs : List PromptRequest) (k : Text)
    → requested r.id reqs ≡ false
    → requested k reqs ≡ true
    → text_eq r.id k ≡ false
id_apart r reqs k apart asked = elim (Bool-cases (text_eq r.id k)) [
  | inl same ↦ let e = (text_eq_iff r.id k).0 same in absurd (false≢true (sym apart ∙ rw e asked))
  | inr other ↦ other
]

Kept-Fresh :
    (r : PromptRequest) (reqs : List PromptRequest) (acc kept : Answers)
    → requested r.id reqs ≡ false
    → Fresh acc (r ∷ reqs)
    → Kept r acc kept
    → Fresh kept reqs
Kept-Fresh r reqs acc kept apart f step k asked =
    let other = id_apart r reqs k apart asked in
    Kept-lookup r acc kept k other step ∙ f k (rw (other, asked) refl)

ask_all-Answered :
    (ctx : Text → Context) (reqs : List PromptRequest) (acc : Answers) (t : Terminal)
    {t' : Terminal} {answers : Answers}
    → Distinct reqs
    → Fresh acc reqs
    → ask_all ctx reqs acc t ≡ (ok answers, t')
    → All (Answered answers) reqs
unfolding ask_all
ask_all-Answered ctx [] acc t d f h = tt
ask_all-Answered ctx (r ∷ reqs) acc t {answers = answers} (named, apart, d) f h =
    let (kept, u, step, rest) = ask_all-step ctx r reqs acc t h in
    let same = ask_all-other ctx reqs kept u r.id apart rest in
    let here = Kept-Answered r acc kept answers (f r.id (rw text_eq_refl refl)) same step in
    (here, ask_all-Answered ctx reqs kept u d (Kept-Fresh r reqs acc kept apart f step) rest)

-- When the terminal prompter answers, each request has an answer that is not empty, or it is
-- optional and has none; an identifier that was not requested has none.
pub terminal_dispatch-Answered :
    (ctx : Text → Context) (reqs : List PromptRequest) (t : Terminal) {t' : Terminal}
    {answers : Answers}
    → terminal_dispatch ctx reqs t ≡ (ok answers, t')
    → All (Answered answers) reqs
      × ((k : Text) → requested k reqs ≡ false → lookup k answers ≡ none)
unfolding terminal_dispatch
terminal_dispatch-Answered ctx reqs t h =
    let (u, t0, valid, reading) = >>=-returns (lift (validate_requests reqs)) _ t h in
    let (u', t1, made, rest) = >>=-returns new_reader (λ x. ask_all ctx reqs []) t0 reading in
    let distinct = (validate_requests_iff reqs).0 (ap (λ p. p.0) valid) in
    (
      ask_all-Answered ctx reqs [] t1 distinct (λ k q. unfold lookup in refl) rest,
      λ k q. ask_all-other ctx reqs [] t1 k q rest ∙ (unfold lookup in refl),
    )

matched_same : (v again : Text) {w : Text} → matched v again ≡ ok w → (again ≡ v) × (v ≡ w)
matched_same v again h = elim (Bool-cases (text_eq again v)) [
  | inl same ↦ ((text_eq_iff again v).0 same, ok_injective (rw same at h))
  | inr other ↦ absurd (err_ne_ok (rw other at h))
]

confirmed_again :
    (r : PromptRequest) (w : Text) (u : Terminal) {t' : Terminal} {v : Text}
    → r.confirm ≡ true
    → v ≢ []
    → confirmed r w u ≡ (ok v, t')
    → (w ≡ v) × (read (text "Confirm " ++ (label_of r ++ text ": ")) r.secret u ≡ (ok v, t'))
unfolding confirmed
confirmed_again r [] u c n h = absurd (n (sym (ok_injective (ap (λ p. p.0) (rw c at h)))))
confirmed_again r (c' ∷ w) u {t'} {v} c n h =
    let (again, t1, e, k) =
      >>=-returns (read (text "Confirm " ++ (label_of r ++ text ": ")) r.secret)
        (λ a. lift (matched (c' ∷ w) a)) u (rw c at h) in
    let (same, value) = matched_same (c' ∷ w) again (ap (λ p. p.0) k) in
    let stays : t1 ≡ t' = ap (λ p. p.1) k in (value, e ∙ (λ i. (ok ((same ∙ value) i), stays i)))

-- A request with a confirmation gets no value that was not typed twice, or that is not the default
-- and was typed once after an empty entry.
pub ask_confirmed :
    (r : PromptRequest) (t : Terminal) {t' : Terminal} {v : Text}
    → r.confirm ≡ true
    → v ≢ []
    → ask r t ≡ (ok v, t')
    → (first : Text) × (u : Terminal) × (read (label_of r ++ text ": ") r.secret t ≡ (ok first, u))
      × (or_default r first ≡ v)
      × (read (text "Confirm " ++ (label_of r ++ text ": ")) r.secret u ≡ (ok v, t'))
unfolding ask confirmed
ask_confirmed r t c n h =
    let (first, u, e, k) = >>=-returns (read (label_of r ++ text ": ") r.secret) _ t h in
    let (same, again) = confirmed_again r (or_default r first) u c n k in (first, u, e, same, again)
