-- ===== src/Agent/Process/Owner.antt =====
-- Whom an agent answers.
use mathlib.Core.List.{Memᴰ}
use go_flexconf.Agent.Process.{
  Process, Event, Timed, connects, requests, drops, elapses, signals, returns, step, run, live_step,
  one_request, sent, unsent, exit_with, has_connection, without,
}
use go_flexconf.Agent.Server.{Server, serve_request, handle}
use go_flexconf.Agent.Wire.{Request, Response}
use go_flexconf.Driver.{VaultDriver}
use go_flexconf.Base.{
  ==_iff, All, Bool, Bool-cases, List, [], inl, inr, none, some, subst, true, ℕ, ◌==◌, ◌∷◌, ◌≡◌,
  All-append, arith, else_taken, false, not, then_taken, ◌&&◌, refl, both_taken,
}
use go_flexconf.Text.{text, text_eq}

-- The events have a connection of this number whose peer is the user.
abbrev pub FromUser : ℕ → List Timed → ℕ → Type 0
FromUser uid es c = (now : ℕ) × Memᴰ (now, connects c (some uid)) es

-- The connections that an event takes from the user are among those of the predicate.
abbrev Admits : ℕ → (ℕ → Type 0) → Timed → Type 0
Admits uid A (now, connects c (some peer)) = peer ≡ uid → A c
Admits uid A e = Unit

-- Every connection that is open and every one that was answered is of the predicate.
abbrev Only : {D : Type 0} → (ℕ → Type 0) → Process D → Type 0
Only A p = All A p.connections × All (λ (r : ℕ × Response). A r.0) p.replies

without-All : (A : ℕ → Type 0) (c : ℕ) (ds : List ℕ) → All A ds → All A (without c ds)
unfolding without
without-All A c [] h = tt
without-All A c (d ∷ ds) h = elim (Bool-cases (d == c)) [
  | inl same ↦ rw same (without-All A c ds h.1)
  | inr other ↦ rw other (h.0, without-All A c ds h.1)
]

has_connection-All :
    (A : ℕ → Type 0) (c : ℕ) (ds : List ℕ) → has_connection c ds ≡ true → All A ds → A c
unfolding has_connection
has_connection-All A c [] k h = cc
has_connection-All A c (d ∷ ds) k h = elim (Bool-cases (d == c)) [
  | inl same ↦ subst A ((==_iff d c).0 same) h.0
  | inr other ↦ has_connection-All A c ds (rw other at k) h.1
]

module _ {C D : Type 0} (drv : VaultDriver C D) (uid : ℕ) (A : ℕ → Type 0) where
  sent-Only :
      (c : ℕ) (req : Request) (p : Process D) (r : Response × Server D)
      → A c
      → Only A p
      → Only A (sent drv uid c req p r)
  sent-Only c req p (resp, s) a (open_ones, heard) = (
    both_taken (All A) (text_eq req.op (text "lock") && resp.accepted) (without c p.connections)
        p.connections (without-All A c p.connections open_ones) open_ones,
    All-append (λ (r : ℕ × Response). A r.0) p.replies ((c, resp) ∷ []) heard (a, tt),
  )

  one_sent :
      (now c : ℕ) (req : Request) (writes : Bool) (p : Process D)
      → has_connection c p.connections ≡ true
      → writes ≡ true
      → Only A (sent drv uid c req p (serve_request drv now req p.server))
      → Only A (one_request drv uid now c req writes p)
  one_sent now c req writes p known sends h =
      then_taken (Only A) (has_connection c p.connections) _ p known (
        then_taken (Only A) writes (sent drv uid c req p (serve_request drv now req p.server))
          (unsent drv uid c p (handle drv now req p.server)) sends h)

  one_request-Only :
      (now c : ℕ) (req : Request) (writes : Bool) (p : Process D)
      → Only A p
      → Only A (one_request drv uid now c req writes p)
  one_request-Only now c req writes p h = elim (Bool-cases (has_connection c p.connections)) [
    | inr unknown ↦ rw unknown h
    | inl known ↦ elim (Bool-cases writes) [
      | inl sends ↦ one_sent now c req writes p known sends (
          sent-Only c req p (serve_request drv now req p.server)
            (has_connection-All A c p.connections known h.0) h)
      | inr fails ↦ rw (known, fails) (without-All A c p.connections h.0, h.1)
    ]
  ]

  live_step-Only :
      (now : ℕ) (e : Event) (p : Process D)
      → Admits uid A (now, e)
      → Only A p
      → Only A (live_step drv uid now e p)
  live_step-Only now (connects c none) p a h =
      else_taken (Only A) (not p.server.stopped && false)
        (record p { connections = c ∷ p.connections }) p (ground arith) h
  live_step-Only now (connects c (some peer)) p a h =
      elim (Bool-cases (not p.server.stopped && peer == uid)) [
        | inl taken ↦
            then_taken (Only A) _ (record p { connections = c ∷ p.connections }) p taken
              ((a (ground (arith, taken)), h.0), h.1)
        | inr refused ↦
            else_taken (Only A) _ (record p { connections = c ∷ p.connections }) p refused h
      ]
  live_step-Only now (requests c req writes) p a h = one_request-Only now c req writes p h
  live_step-Only now (drops c) p a h = (without-All A c p.connections h.0, h.1)
  live_step-Only now elapses p a h = h
  live_step-Only now signals p a h = h
  live_step-Only now returns p a h =
      both_taken (Only A) p.server.stopped (exit_with drv uid p) p h h

  run-Only :
      (es : List Timed) (p : Process D)
      → All (Admits uid A) es
      → Only A p
      → Only A (run drv uid es p)
  unfolding run step
  run-Only [] p a h = h
  run-Only (e ∷ es) p a h = run-Only es (step drv uid e p) a.1 (
      both_taken (Only A) p.exited p (live_step drv uid e.0 e.1 p) h
        (live_step-Only e.0 e.1 p a.0 h))

  run-Only_start :
      (es : List Timed) (p : Process D)
      → All (Admits uid A) es
      → p.connections ≡ []
      → p.replies ≡ []
      → All (λ (r : ℕ × Response). A r.0) (run drv uid es p).replies
  run-Only_start es p a c r = (run-Only es p a (rw c tt, rw r tt)).1

FromUser-later :
    (uid : ℕ) (e : Timed) (es : List Timed) (c : ℕ) → FromUser uid es c → FromUser uid (e ∷ es) c
FromUser-later uid e es c (now, m) = (now, Memᴰ.tail m)

-- Every event of a list admits what the list admits.
weaken_Admits :
    (uid : ℕ) (A B : ℕ → Type 0) (es : List Timed)
    → ((c : ℕ) → A c → B c)
    → All (Admits uid A) es
    → All (Admits uid B) es
weaken_Admits uid A B [] f h = tt
weaken_Admits uid A B ((now, connects c none) ∷ es) f h = (tt, weaken_Admits uid A B es f h.1)
weaken_Admits uid A B ((now, connects c (some peer)) ∷ es) f h =
    ((λ e. f c (h.0 e)), weaken_Admits uid A B es f h.1)
weaken_Admits uid A B ((now, requests c req writes) ∷ es) f h = (tt, weaken_Admits uid A B es f h.1)
weaken_Admits uid A B ((now, drops c) ∷ es) f h = (tt, weaken_Admits uid A B es f h.1)
weaken_Admits uid A B ((now, elapses) ∷ es) f h = (tt, weaken_Admits uid A B es f h.1)
weaken_Admits uid A B ((now, signals) ∷ es) f h = (tt, weaken_Admits uid A B es f h.1)
weaken_Admits uid A B ((now, returns) ∷ es) f h = (tt, weaken_Admits uid A B es f h.1)

from_first :
    (uid now c : ℕ) (peer : ℕ) (es : List Timed)
    → peer ≡ uid
    → FromUser uid ((now, connects c (some peer)) ∷ es) c
from_first uid now c peer es same = (
  now,
  subst (λ u. Memᴰ (now, connects c (some u)) ((now, connects c (some peer)) ∷ es)) same
      (Memᴰ.head refl),
)

event-Admits : (uid : ℕ) (e : Timed) (es : List Timed) → Admits uid (FromUser uid (e ∷ es)) e
event-Admits uid (now, connects c none) es = tt
event-Admits uid (now, connects c (some peer)) es = from_first uid now c peer es
event-Admits uid (now, requests c req writes) es = tt
event-Admits uid (now, drops c) es = tt
event-Admits uid (now, elapses) es = tt
event-Admits uid (now, signals) es = tt
event-Admits uid (now, returns) es = tt

FromUser-Admits : (uid : ℕ) (es : List Timed) → All (Admits uid (FromUser uid es)) es
FromUser-Admits uid [] = tt
FromUser-Admits uid (e ∷ es) = (
  event-Admits uid e es,
  weaken_Admits uid (FromUser uid es) (FromUser uid (e ∷ es)) es (FromUser-later uid e es)
      (FromUser-Admits uid es),
)

-- From an agent with no connection, whatever happens, every response that was sent went to a
-- connection whose peer, as its socket told, is the user that the agent runs for.
pub replies-FromUser :
    {C D : Type 0} (drv : VaultDriver C D) (uid : ℕ) (es : List Timed) (p : Process D)
    → p.connections ≡ []
    → p.replies ≡ []
    → All (λ (r : ℕ × Response). FromUser uid es r.0) (run drv uid es p).replies
replies-FromUser drv uid es p c r =
    run-Only_start drv uid (FromUser uid es) es p (FromUser-Admits uid es) c r
