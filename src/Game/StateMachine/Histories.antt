-- ===== src/Game/StateMachine/Histories.antt =====
-- Histories of a game: any requests at all, put one after the other to `transitionGame`; a request
-- that it refuses changes nothing.
use clu_chess.Base.{
  ◌≡◌, refl, ◌≤◌, true, false, none, some, Option, List, [], ◌∷◌, Result, ok, err, length, arith,
}
use clu_chess.Base.Number.{ℤ, pos, ◌≤ℤ◌, max_safe_integer}
use clu_chess.Game.{GameStatus, created, GameDomainError}
use clu_chess.Game.StateMachine.{
  GameTransition, GameTransitionInput, GameTransitionResult, transition_game,
}
use clu_chess.Game.StateMachine.Runs.{is_terminal, rank, transition_game-Advances}
use clu_chess.Game.Terminal.{TerminalOutcome}

pub record Progress : Type 0 where
  pub status : GameStatus
  pub version : ℤ
  pub outcomes : List TerminalOutcome

abbrev pub Request : Type 0
Request = GameTransition × Option TerminalOutcome

abbrev record_outcome : Option TerminalOutcome → List TerminalOutcome → List TerminalOutcome
record_outcome none os = os
record_outcome (some o) os = o ∷ os

abbrev input_of : Progress → GameTransition → Option TerminalOutcome → GameTransitionInput
input_of p t o = record { outcome = o; status = p.status; transition = t; version = p.version }

abbrev settle : Progress → Result GameDomainError GameTransitionResult → Progress
settle p (ok r) = record {
  status = r.status;
  version = r.version;
  outcomes = record_outcome r.outcome p.outcomes;
}
settle p (err _) = p

pub request : Progress → Request → Progress
request p (t, o) = settle p (transition_game (input_of p t o))

pub run : Progress → List Request → Progress
run p [] = p
run p (r ∷ rs) = run (request p r) rs

pub allocated : Progress
allocated = record { status = created; version = pos 0; outcomes = [] }

pub record Inv (p : Progress) : Type 0 where
  pub range : (pos 0 ≤ℤ p.version) × (p.version ≤ℤ pos max_safe_integer)
  pub once : length p.outcomes ≤ 1
  pub decided : is_terminal p.status ≡ true → length p.outcomes ≡ 1
  pub open_end : is_terminal p.status ≡ false → length p.outcomes ≡ 0

settle-Inv :
    (p : Progress) (t : GameTransition) (o : Option TerminalOutcome)
    (r : Result GameDomainError GameTransitionResult)
    → transition_game (input_of p t o) ≡ r
    → Inv p
    → Inv (settle p r)
settle-Inv p t o (ok r) e v = ground (arith, transition_game-Advances (input_of p t o) {r = r} e)
settle-Inv p t o (err _) e v = v

run-Inv : (p : Progress) (rs : List Request) → Inv p → Inv (run p rs)
unfolding run request
run-Inv p [] v = v
run-Inv p ((t, o) ∷ rs) v = run-Inv (request p (t, o)) rs (settle-Inv p t o _ refl v)

-- After any sequence of requested transitions of a created game the version is a safe integer
-- no less than 0, and exactly one outcome has been recorded if the status is terminal, and none
-- otherwise.
pub run-allocated-Inv : (rs : List Request) → Inv (run allocated rs)
unfolding allocated
run-allocated-Inv rs = run-Inv _ rs (ground arith)

settle_grows :
    (p : Progress) (t : GameTransition) (o : Option TerminalOutcome)
    (r : Result GameDomainError GameTransitionResult)
    → transition_game (input_of p t o) ≡ r
    → (rank p.status ≤ rank (settle p r).status)
      × (p.version ≤ℤ (settle p r).version)
      × (is_terminal p.status ≡ true → settle p r ≡ p)
settle_grows p t o (ok r) e = ground (arith, transition_game-Advances (input_of p t o) {r = r} e)
settle_grows p t o (err _) e = ground arith

-- No sequence of requested transitions takes a game to an earlier stage or decreases its
-- version.
pub run_grows :
    (p : Progress) (rs : List Request)
    → (rank p.status ≤ rank (run p rs).status) × (p.version ≤ℤ (run p rs).version)
unfolding run request
run_grows p [] = ground arith
run_grows p ((t, o) ∷ rs) =
    ground (arith, settle_grows p t o _ refl, run_grows (request p (t, o)) rs)

-- No sequence of requested transitions changes a game that has ended.
pub run_terminal : (p : Progress) (rs : List Request) → is_terminal p.status ≡ true → run p rs ≡ p
unfolding run request
run_terminal p [] h = refl
run_terminal p ((t, o) ∷ rs) h =
    ground (arith, settle_grows p t o _ refl, run_terminal (request p (t, o)) rs)
