-- ===== src/Matchmaking/Draining.antt =====
-- How many games `drain` and `attemptMatch` of matchmaking.service.ts make.
use clu_chess.Base.{
  ◌⊎◌, ◌*◌, Bool-cases, inl, inr, ℕ, zero, suc, ◌+◌, ◌≤◌, ◌≡◌, Option, none, some, List, [], ◌∷◌,
  ◌++◌, length, Result, ok, err, arith,
}
use clu_chess.Base.Number.{ℤ}
use clu_chess.Chess.{ChessEngine}
use clu_chess.Store.Rows.{Database}
use clu_chess.Lifecycle.Resign.{Failure}
use clu_chess.Allocation.Records.{GameAllocation}
use clu_chess.Matchmaking.Matching.{RemovedQueueGuest, MatchAttempt}
use clu_chess.Matchmaking.Queue.{MatchmakingError}
use clu_chess.Matchmaking.Redis.{Redis, Ticket, MatchReservation}
use clu_chess.Matchmaking.Service.{
  matches_reservation, World, Settings, Draw, Thrown, MatchmakingEffects, empty_effects,
  merge_effects, process_reservation, recover, roll_back, recover_from, finalize_allocated,
  or_recover, with_allocation, rolled_back, attempt_match, effects_from_attempt, drain_loop,
  drain_rest, drain, pair_budget, with_discarded,
}

-- The games that an answer lists.
abbrev pub games_of : Result Thrown MatchmakingEffects × World → ℕ
games_of (ok effects, world) = length effects.allocations
games_of (err e, world) = 0

length-++ : (xs ys : List GameAllocation) → length (xs ++ ys) ≡ length xs + length ys
length-++ [] ys = ground arith
length-++ (x ∷ xs) ys = ground (arith, length-++ xs ys)

abbrev IsSmall : Result Thrown MatchmakingEffects × World → Type 0
IsSmall answer = games_of answer ≤ 1

module _ (settings : Settings) (chess : ChessEngine) where
  with_allocation-IsSmall :
      (a : GameAllocation) (db : Database) (x : Result Thrown (Unit {0}) × Redis)
      → IsSmall (with_allocation settings chess a db x)
  with_allocation-IsSmall a db (ok tt, r) = ground arith
  with_allocation-IsSmall a db (err e, r) = ground arith

  rolled_back-IsSmall :
      (db : Database) (x : Result MatchmakingError (List Ticket) × Redis)
      → IsSmall (rolled_back settings chess db x)
  rolled_back-IsSmall db (ok tickets, r) = ground arith
  rolled_back-IsSmall db (err e, r) = ground arith

  recover_from-IsSmall :
      (e : Thrown) (given : MatchReservation) (observed : ℤ) (world : World)
      (x : Result Failure (Option GameAllocation))
      → IsSmall (recover_from settings chess e given observed world x)
  recover_from-IsSmall e given observed world (err f) = ground arith
  recover_from-IsSmall e given observed world (ok none) =
      unfold roll_back in rolled_back-IsSmall world.db _
  recover_from-IsSmall e given observed world (ok (some a)) =
      elim (Bool-cases (matches_reservation settings chess a given)) [
        | inl same ↦ rw same (with_allocation-IsSmall a world.db _)
        | inr other ↦ rw other (unfold roll_back in rolled_back-IsSmall world.db _)
      ]

  or_recover-IsSmall :
      (given : MatchReservation) (observed : ℤ) (x : Result Thrown MatchmakingEffects × World)
      → IsSmall x
      → IsSmall (or_recover settings chess given observed x)
  or_recover-IsSmall given observed (ok effects, world) h = h
  or_recover-IsSmall given observed (err e, world) h =
      unfold recover in recover_from-IsSmall e given observed world _

  finalize_allocated-IsSmall :
      (given : MatchReservation) (r : Redis) (x : Result Thrown GameAllocation × Database)
      → IsSmall (finalize_allocated settings chess given r x)
  finalize_allocated-IsSmall given r (ok a, db) = with_allocation-IsSmall a db _
  finalize_allocated-IsSmall given r (err e, db) = ground arith

  with_discarded-IsSmall :
      (discarded : List RemovedQueueGuest) (x : Result Thrown MatchmakingEffects × World)
      → IsSmall x
      → IsSmall (with_discarded settings chess discarded x)
  with_discarded-IsSmall discarded (ok effects, world) h = h
  with_discarded-IsSmall discarded (err e, world) h = h

  -- One game at most.
  attempt-IsSmall :
      (draw : Draw) (observed : ℤ) (db : Database)
      (x : Result MatchmakingError MatchAttempt × Redis)
      → IsSmall (effects_from_attempt settings chess draw observed db x)
  attempt-IsSmall draw observed db (err e, r) = ground arith
  attempt-IsSmall draw observed db (ok attempt, r) = reserved attempt.reservation
    where
      reserved :
          (o : Option MatchReservation)
          → IsSmall (
              effects_from_attempt settings chess draw observed db
                (ok (record attempt { reservation = o }), r))
      reserved none = ground arith
      reserved (some given) = with_discarded-IsSmall attempt.discarded _ (
          unfold process_reservation in
          or_recover-IsSmall given observed _ (finalize_allocated-IsSmall given r _))

  rest-small :
      (n : ℕ) (again : MatchmakingEffects → World → Result Thrown MatchmakingEffects × World)
      (effects : MatchmakingEffects) (x : Result Thrown MatchmakingEffects × World)
      → IsSmall x
      → ((e : MatchmakingEffects) (world : World)
          → games_of (again e world) ≤ length e.allocations + n)
      → games_of (drain_rest settings chess again effects x) ≤ length effects.allocations + suc n
  rest-small n again effects (err e, world) h k = ground arith
  rest-small n again effects (ok cycle, world) h k =
      unfold merge_effects in
      ground (
        arith,
        h,
        length-++ effects.allocations cycle.allocations,
        k (merge_effects effects cycle) world,
      )

  loop-small :
      (n : ℕ) (draws : ℕ → Draw) (observed : ℤ) (effects : MatchmakingEffects) (world : World)
      → games_of (drain_loop settings chess n draws observed effects world)
        ≤ length effects.allocations + n
  unfolding drain_loop
  loop-small zero draws observed effects world = ground arith
  loop-small (suc n) draws observed effects world =
      rest-small n (drain_loop settings chess n draws observed) effects _
        (unfold attempt_match in attempt-IsSmall (draws n) observed world.db _)
        (λ e w. loop-small n draws observed e w)

  -- A drain of the queue, whatever its ids and the engine, answers with at most one game, or
  -- with at most half as many games as the batch size.
  pub drain_bounded :
      (draws : ℕ → Draw) (observed : ℤ) (world : World)
      → let games = games_of (drain settings chess draws observed world) in
        (games ≤ 1) ⊎ (games * 2 ≤ settings.batch_size)
  unfolding drain pair_budget
  drain_bounded draws observed world =
      ground (arith, loop-small (pair_budget settings chess) draws observed empty_effects world)
