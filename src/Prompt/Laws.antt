-- ===== src/Prompt/Laws.antt =====
-- The Dispatch contract: which requests are accepted, and what is answered.
use go_flexconf.Prompt.{
  PromptRequest, collect, Answers, validate_from, map_dispatch, replay_dispatch, validate_requests,
}
use go_flexconf.Base.{
  List, Option, Bool, some, ◌∷◌, false, none, ◌≡◌, ◌≢◌, [], ◌⊎◌, true, ◌||◌, if◌then◌else◌, arith,
  Option-cases, inl, inr, Bool-cases, refl, ◌∙◌, subst, ◌↔◌, is_empty_ne_nil,
}
use go_flexconf.Text.{Text, text_eq}
use go_flexconf.Dict.{Dict, lookup, has_key, insert}
use go_flexconf.Errors.{ok, err_ne_ok, >>=-eq-ok}
use go_flexconf.Text.Laws.{text_eq_iff, text_eq_refl}
use go_flexconf.Dict.Laws.{lookup-insert, has_key-insert}

abbrev pub requested : Text → List PromptRequest → Bool
requested k [] = false
requested k (r ∷ reqs) = text_eq r.id k || requested k reqs

-- Every request has a value or is optional.
abbrev pub Answerable : (Text → Option Text) → List PromptRequest → Type 0
Answerable find [] = Unit
Answerable find (r ∷ reqs) = ((find r.id ≢ none) ⊎ (r.optional ≡ true)) × Answerable find reqs

-- No identifier is empty and none occurs twice.
abbrev pub Distinct : List PromptRequest → Type 0
Distinct [] = Unit
Distinct (r ∷ reqs) = (r.id ≢ []) × (requested r.id reqs ≡ false) × Distinct reqs

abbrev pub or_else : Option Text → Option Text → Option Text
or_else none o = o
or_else (some v) o = some v

collect-lookup :
    (find : Text → Option Text) (reqs : List PromptRequest) (acc : Answers) {answers : Answers}
    (k : Text)
    → collect find reqs acc ≡ ok answers
    → lookup k answers
      ≡ (if requested k reqs then or_else (find k) (lookup k acc) else lookup k acc)
unfolding collect
collect-lookup find [] acc {answers} k e = ground arith
collect-lookup find (r ∷ reqs) acc {answers} k e = elim (Option-cases (find r.id)) [
  | inl absent ↦
      ground (arith, absent, text_eq_iff r.id k, collect-lookup find reqs acc {answers = answers} k)
  | inr (v, present) ↦ ground (
    arith,
    present,
    text_eq_iff r.id k,
    lookup-insert r.id k v acc,
    collect-lookup find reqs (insert r.id v acc) {answers = answers} k,
  )
]

if-or_else :
    (b : Bool) (o : Option Text) → (if b then or_else o none else none) ≡ (if b then o else none)
if-or_else true none = refl
if-or_else true (some v) = refl
if-or_else false o = refl

collect-lookup_nil :
    (find : Text → Option Text) (reqs : List PromptRequest) {answers : Answers} (k : Text)
    → collect find reqs [] ≡ ok answers
    → lookup k answers ≡ (if requested k reqs then find k else none)
collect-lookup_nil find reqs k e =
    collect-lookup find reqs [] k e ∙ (unfold lookup in if-or_else (requested k reqs) (find k))

collect-Answerable :
    (find : Text → Option Text) (reqs : List PromptRequest) (acc : Answers) {answers : Answers}
    → collect find reqs acc ≡ ok answers
    → Answerable find reqs
unfolding collect
collect-Answerable find [] acc e = tt
collect-Answerable find (r ∷ reqs) acc e = elim (Option-cases (find r.id)) [
  | inl absent ↦ elim (Bool-cases r.optional) [
    | inl o ↦ (inr o, collect-Answerable find reqs acc (rw o at (rw (absent, collect) at e)))
    | inr required ↦ absurd (err_ne_ok (rw required at (rw (absent, collect) at e)))
  ]
  | inr (v, present) ↦
      (inl (λ h. cc), collect-Answerable find reqs (insert r.id v acc) (rw (present, collect) at e))
]

Answerable-collect :
    (find : Text → Option Text) (reqs : List PromptRequest) (acc : Answers)
    → Answerable find reqs
    → (answers : Answers) × (collect find reqs acc ≡ ok answers)
unfolding collect
Answerable-collect find [] acc h = (acc, refl)
Answerable-collect find (r ∷ reqs) acc (h, t) = elim (Option-cases (find r.id)) [
  | inl absent ↦ let (answers, e) = Answerable-collect find reqs acc t in (answers, ground arith)
  | inr (v, present) ↦
      let (answers, e) = Answerable-collect find reqs (insert r.id v acc) t in
      (answers, rw (present, collect) e)
]

validate_from-head :
    (seen : Dict (Unit {0})) (r : PromptRequest) (reqs : List PromptRequest)
    → validate_from seen (r ∷ reqs) ≡ ok tt
    → (r.id ≢ []) × (has_key r.id seen ≡ false) × (validate_from (insert r.id tt seen) reqs ≡ ok tt)
unfolding validate_from
validate_from-head seen r reqs e = ground arith

has_key-insert_self : (k : Text) (seen : Dict (Unit {0})) → has_key k (insert k tt seen) ≡ true
has_key-insert_self k seen = simp (has_key-insert, text_eq_refl)

has_key-insert_old :
    (k j : Text) (seen : Dict (Unit {0}))
    → has_key j seen ≡ true
    → has_key j (insert k tt seen) ≡ true
has_key-insert_old k j seen h = rw has_key-insert (ground arith)

seen_apart :
    (seen : Dict (Unit {0})) (r : PromptRequest) (k : Text) (rest : Bool)
    → has_key r.id seen ≡ false
    → has_key k seen ≡ true
    → rest ≡ false
    → (text_eq r.id k || rest) ≡ false
seen_apart seen r k rest p q e = ground (arith, text_eq_iff r.id k)

validate_from-Distinct :
    (seen : Dict (Unit {0})) (reqs : List PromptRequest)
    → validate_from seen reqs ≡ ok tt
    → Distinct reqs × ((k : Text) → has_key k seen ≡ true → requested k reqs ≡ false)
unfolding validate_from
validate_from-Distinct seen [] e = (tt, λ k h. refl)
validate_from-Distinct seen (r ∷ reqs) e =
    let (named, fresh, valid) = validate_from-head seen r reqs e in
    let (distinct, apart) = validate_from-Distinct (insert r.id tt seen) reqs valid in
    (
      (named, apart r.id (has_key-insert_self r.id seen), distinct),
      λ k h.
          seen_apart seen r k (requested k reqs) fresh h
            (apart k (has_key-insert_old r.id k seen h)),
    )

apart_behind :
    (seen : Dict (Unit {0})) (r : PromptRequest) (reqs : List PromptRequest) (k : Text)
    → requested r.id reqs ≡ false
    → ((j : Text) → has_key j seen ≡ true → requested j (r ∷ reqs) ≡ false)
    → has_key k (insert r.id tt seen) ≡ true
    → requested k reqs ≡ false
apart_behind seen r reqs k apart h old = elim (Bool-cases (text_eq r.id k)) [
  | inl same ↦ subst (λ (j : Text). requested j reqs ≡ false) ((text_eq_iff r.id k).0 same) apart
  | inr other ↦ ground (arith, h k, has_key-insert r.id k tt seen)
]

Distinct-validate_from :
    (seen : Dict (Unit {0})) (reqs : List PromptRequest)
    → Distinct reqs
    → ((k : Text) → has_key k seen ≡ true → requested k reqs ≡ false)
    → validate_from seen reqs ≡ ok tt
unfolding validate_from
Distinct-validate_from seen [] d h = refl
Distinct-validate_from seen (r ∷ reqs) (named, apart, d) h = elim (Bool-cases (has_key r.id seen)) [
  | inl old ↦ ground (arith, h r.id old, text_eq_refl r.id)
  | inr fresh ↦
      rw (is_empty_ne_nil r.id named, fresh)
        (Distinct-validate_from (insert r.id tt seen) reqs d
          (λ k k_old. apart_behind seen r reqs k apart h k_old))
]

-- The requests are accepted exactly when no identifier is empty and none occurs twice.
pub validate_requests_iff :
    (reqs : List PromptRequest) → (validate_requests reqs ≡ ok tt) ↔ Distinct reqs
unfolding validate_requests
validate_requests_iff reqs = (
  λ e. (validate_from-Distinct [] reqs e).0,
  λ d. Distinct-validate_from [] reqs d (λ k h. absurd (unfold has_key in cc)),
)

map_dispatch-inv :
    (values : Dict Text) (reqs : List PromptRequest) {answers : Answers}
    → map_dispatch values none reqs ≡ ok answers
    → (validate_requests reqs ≡ ok tt) × (collect (λ k. lookup k values) reqs [] ≡ ok answers)
unfolding map_dispatch
map_dispatch-inv values reqs e =
    let (u, valid, collected) =
      >>=-eq-ok (validate_requests reqs) (λ _. collect (λ k. lookup k values) reqs []) e in
    (valid, collected)

collect_agree :
    (find g : Text → Option Text) (reqs : List PromptRequest) (acc : Answers)
    → ((k : Text) → requested k reqs ≡ true → find k ≡ g k)
    → collect find reqs acc ≡ collect g reqs acc
unfolding collect
collect_agree find g [] acc h = refl
collect_agree find g (r ∷ reqs) acc h =
    let here = h r.id (ground (arith, text_eq_refl r.id)) in
    let behind = λ (k : Text) (q : requested k reqs ≡ true). h k (ground arith) in
    elim (Option-cases (g r.id)) [
      | inl absent ↦ rw (here, absent, collect) (rw (collect_agree find g reqs acc behind))
      | inr (v, present) ↦
          rw (here, present, collect) (collect_agree find g reqs (insert r.id v acc) behind)
    ]

-- `NewMapPrompter`, under a live context: it answers exactly when the requests are accepted and
-- each is optional or has a value, and the answers then hold the value of each identifier asked
-- for, where there is one, and nothing else.
pub map_dispatch-contract :
    (values : Dict Text) (reqs : List PromptRequest)
    → (((answers : Answers) × (map_dispatch values none reqs ≡ ok answers))
        ↔ (Distinct reqs × Answerable (λ k. lookup k values) reqs))
      × ((answers : Answers) (k : Text)
          → map_dispatch values none reqs ≡ ok answers
          → lookup k answers ≡ (if requested k reqs then lookup k values else none))
unfolding map_dispatch
map_dispatch-contract values reqs = (
  (
    λ (answers, e).
        let (valid, collected) = map_dispatch-inv values reqs e in
        ((validate_requests_iff reqs).0 valid, collect-Answerable _ reqs [] collected),
    λ (d, h).
        let (answers, e) = Answerable-collect (λ k. lookup k values) reqs [] h in
        (answers, rw ((validate_requests_iff reqs).1 d) e),
  ),
  λ answers k e. collect-lookup_nil _ reqs k (map_dispatch-inv values reqs e).1,
)

-- Answers that a prompter collected for some requests are replayed unchanged for the same ones.
pub replay_collected :
    (find : Text → Option Text) (reqs : List PromptRequest) {answers : Answers}
    → collect find reqs [] ≡ ok answers
    → replay_dispatch answers reqs ≡ ok answers
unfolding replay_dispatch
replay_collected find reqs {answers} e =
    collect_agree (λ k. lookup k answers) find reqs []
      (λ k r. collect-lookup_nil find reqs k e ∙ rw r)
    ∙ e
