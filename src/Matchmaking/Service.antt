-- ===== src/Matchmaking/Service.antt =====
-- matchmaking.service.ts, and game-allocation.service.ts of src/modules/game, which it calls.
-- What is random (the ids and who has white) is an argument, and so is the clock.
use clu_chess.Base.{
  ℕ, zero, suc, ◌/◌, ◌==◌, ltb, Bool, true, false, not, ◌&&◌, ◌||◌, Option, none, some, List, [],
  ◌∷◌, ◌++◌, length, Result, ok, err, if◌then◌else◌,
}
use clu_chess.Base.Number.{ℤ, ◌+ℤ◌}
use clu_chess.Chess.{ChessEngine, ChessEngineErrorCode, ReplayedPosition}
use clu_chess.Store.Rows.{Uuid, Database}
use clu_chess.Store.Soundness.{present}
use clu_chess.Lifecycle.Resign.{Failure}
use clu_chess.Allocation.Allocate.{allocate, sorted, every_at}
use clu_chess.Allocation.Queries.{guest_match_eligibility, find_by_match_id}
use clu_chess.Allocation.Records.{AllocateGame, GameAllocation}
use clu_chess.Matchmaking.Matching.{MatchRequest, MatchAttempt, RemovedQueueGuest, try_match}
use clu_chess.Matchmaking.Queue.{
  MatchmakingError, MatchmakingErrorCode, already_in_game, not_present, reservation_mismatch,
  dependency_unavailable, failure, QueueJoin, enqueue, leave,
}
use clu_chess.Matchmaking.Redis.{Ticket, MatchReservation, Redis, is_present, prune_presence}
use clu_chess.Matchmaking.Settling.{finalize, rollback, repair_committed}
use clu_chess.Matchmaking.Sweeping.{sweep}

-- PostgreSQL and Redis.
pub record World : Type 0 where
  pub db : Database
  pub redis : Redis

-- `config.values`.
pub record Settings : Type 0 where
  pub batch_size : ℕ
  pub increment_ms : ℤ
  pub initial_ms : ℤ
  pub join_deadline_ms : ℤ
  pub max_wait_ms : ℤ

-- What one attempt draws at random.
pub record Draw : Type 0 where
  pub match_id : Uuid
  pub game_id : Uuid
  pub first_is_white : Bool
  pub player_ids : Uuid × Uuid

pub data Thrown : Type 0 where
  chess_error : ChessEngineErrorCode → Thrown
  game_error : Failure → Thrown
  queue_error : MatchmakingError → Thrown

pub record MatchmakingEffects : Type 0 where
  pub allocations : List GameAllocation
  pub requeued : List Ticket
  pub removed : List RemovedQueueGuest

abbrev pub empty_effects : MatchmakingEffects
empty_effects = record { allocations = []; requeued = []; removed = [] }

unfoldable pub merge_effects : MatchmakingEffects → MatchmakingEffects → MatchmakingEffects
merge_effects target source = record {
  allocations = target.allocations ++ source.allocations;
  requeued = target.requeued ++ source.requeued;
  removed = target.removed ++ source.removed;
}

pub record JoinQueueResult : Type 0 where
  pub effects : MatchmakingEffects
  pub queue : QueueJoin

module _ (settings : Settings) (chess : ChessEngine) where
  -- The command of `GameAllocationService.allocate`.
  unfoldable pub allocation_of : Draw → MatchReservation → ℤ → ReplayedPosition → AllocateGame
  allocation_of draw given observed position = record {
    black_guest_session_id = if draw.first_is_white then given.b else given.a;
    game_id = given.game_id;
    initial_fen = position.fen;
    join_deadline_at = observed +ℤ settings.join_deadline_ms;
    match_id = given.match_id;
    observed_at = observed;
    pgn = position.pgn;
    time_increment_ms = settings.increment_ms;
    time_initial_ms = settings.initial_ms;
    white_guest_session_id = if draw.first_is_white then given.a else given.b;
  }

  abbrev pub from_repository :
      Result Failure GameAllocation × Database → Result Thrown GameAllocation × Database
  from_repository (ok a, db) = (ok a, db)
  from_repository (err e, db) = (err (game_error e), db)

  abbrev pub allocate_position :
      Draw
      → MatchReservation
      → ℤ
      → Result ChessEngineErrorCode ReplayedPosition
      → Database
      → Result Thrown GameAllocation × Database
  allocate_position draw given observed (err e) db = (err (chess_error e), db)
  allocate_position draw given observed (ok position) db =
      from_repository (allocate draw.player_ids (allocation_of draw given observed position) db)

  unfoldable pub allocate_reservation :
      Draw → MatchReservation → ℤ → Database → Result Thrown GameAllocation × Database
  allocate_reservation draw given observed db =
      allocate_position draw given observed chess.new_game db

  abbrev pub is_code : MatchmakingErrorCode → MatchmakingErrorCode → Bool
  is_code reservation_mismatch reservation_mismatch = true
  is_code dependency_unavailable dependency_unavailable = true
  is_code _ _ = false

  abbrev pub repaired : Result MatchmakingError Bool × Redis → Result Thrown (Unit {0}) × Redis
  repaired (ok _, r) = (ok tt, r)
  repaired (err e, r) = (err (queue_error e), r)

  abbrev pub after_finalize :
      GameAllocation → Result MatchmakingError Bool × Redis → Result Thrown (Unit {0}) × Redis
  after_finalize a (ok _, r) = (ok tt, r)
  after_finalize a (err e, r) =
      if is_code e.code reservation_mismatch
      then repaired
          (repair_committed a.game.id a.players.0.guest_session_id a.players.1.guest_session_id r)
      else if is_code e.code dependency_unavailable
      then (ok tt, r)
      else (err (queue_error e), r)

  unfoldable pub finalize_committed :
      MatchReservation → GameAllocation → Redis → Result Thrown (Unit {0}) × Redis
  finalize_committed given a r = after_finalize a (finalize given r)

  unfoldable pub matches_reservation : GameAllocation → MatchReservation → Bool
  matches_reservation a given =
      let actual = sorted (a.players.0.guest_session_id ∷ a.players.1.guest_session_id ∷ []) in
      (a.game.id == given.game_id)
      && ((a.game.match_id == given.match_id)
          && ((length actual == 2) && every_at actual (sorted (given.a ∷ given.b ∷ []))))

  abbrev pub with_allocation :
      GameAllocation
      → Database
      → Result Thrown (Unit {0}) × Redis
      → Result Thrown MatchmakingEffects × World
  with_allocation a db (ok _, r) =
      (ok (record empty_effects { allocations = a ∷ [] }), record { db = db; redis = r })
  with_allocation a db (err e, r) = (err e, record { db = db; redis = r })

  abbrev pub rolled_back :
      Database
      → Result MatchmakingError (List Ticket) × Redis
      → Result Thrown MatchmakingEffects × World
  rolled_back db (ok tickets, r) =
      (ok (record empty_effects { requeued = tickets }), record { db = db; redis = r })
  rolled_back db (err e, r) = (err (queue_error e), record { db = db; redis = r })

  unfoldable pub roll_back : MatchReservation → ℤ → World → Result Thrown MatchmakingEffects × World
  roll_back given observed world = rolled_back world.db (
      rollback given (guest_match_eligibility given.a observed world.db)
        (guest_match_eligibility given.b observed world.db) observed world.redis)

  -- `recoverAfterAllocationFailure`; where the durable state cannot be read, the first error is
  -- thrown again.
  abbrev pub recover_from :
      Thrown
      → MatchReservation
      → ℤ
      → World
      → Result Failure (Option GameAllocation)
      → Result Thrown MatchmakingEffects × World
  recover_from e given observed world (err _) = (err e, world)
  recover_from e given observed world (ok none) = roll_back given observed world
  recover_from e given observed world (ok (some a)) =
      if matches_reservation a given
      then with_allocation a world.db (finalize_committed given a world.redis)
      else roll_back given observed world

  unfoldable pub recover :
      Thrown → MatchReservation → ℤ → World → Result Thrown MatchmakingEffects × World
  recover e given observed world =
      recover_from e given observed world (find_by_match_id given.match_id world.db)

  -- An error in either of the two statements of the `try` block leads to the recovery.
  abbrev pub or_recover :
      MatchReservation
      → ℤ
      → Result Thrown MatchmakingEffects × World
      → Result Thrown MatchmakingEffects × World
  or_recover given observed (ok effects, world) = (ok effects, world)
  or_recover given observed (err e, world) = recover e given observed world

  abbrev pub finalize_allocated :
      MatchReservation
      → Redis
      → Result Thrown GameAllocation × Database
      → Result Thrown MatchmakingEffects × World
  finalize_allocated given r (ok a, db) = with_allocation a db (finalize_committed given a r)
  finalize_allocated given r (err e, db) = (err e, record { db = db; redis = r })

  unfoldable pub process_reservation :
      Draw → MatchReservation → ℤ → World → Result Thrown MatchmakingEffects × World
  process_reservation draw given observed world =
      or_recover given observed
        (finalize_allocated given world.redis (allocate_reservation draw given observed world.db))

  abbrev pub with_discarded :
      List RemovedQueueGuest
      → Result Thrown MatchmakingEffects × World
      → Result Thrown MatchmakingEffects × World
  with_discarded discarded (ok e, world) =
      (ok (record e { removed = discarded ++ e.removed }), world)
  with_discarded discarded (err e, world) = (err e, world)

  -- `effectsFromAttempt`.
  abbrev pub effects_from_attempt :
      Draw
      → ℤ
      → Database
      → Result MatchmakingError MatchAttempt × Redis
      → Result Thrown MatchmakingEffects × World
  effects_from_attempt draw observed db (err e, r) =
      (err (queue_error e), record { db = db; redis = r })
  effects_from_attempt draw observed db (ok attempt, r) = elim attempt.reservation [
    | none ↦
        (ok (record empty_effects { removed = attempt.discarded }), record { db = db; redis = r })
    | some given ↦
        with_discarded attempt.discarded
          (process_reservation draw given observed (record { db = db; redis = r }))
  ]

  unfoldable pub attempt_match : Draw → ℤ → World → Result Thrown MatchmakingEffects × World
  attempt_match draw observed world =
      let request : MatchRequest = record {
        now = observed;
        max_wait = settings.max_wait_ms;
        max_scan = settings.batch_size;
        match_id = draw.match_id;
        game_id = draw.game_id;
      } in
      effects_from_attempt draw observed world.db (try_match request world.redis)

  -- `Math.max(1, Math.floor(batchSize / 2))`.
  unfoldable pub pair_budget : ℕ
  pair_budget = let half = settings.batch_size / 2 in if half == 0 then 1 else half

  -- The rest of the loop of `drain`, after a cycle.
  abbrev pub drain_rest :
      (MatchmakingEffects → World → Result Thrown MatchmakingEffects × World)
      → MatchmakingEffects
      → Result Thrown MatchmakingEffects × World
      → Result Thrown MatchmakingEffects × World
  drain_rest again effects (err e, world) = (err e, world)
  drain_rest again effects (ok cycle, world) = elim cycle.allocations [
    | [] ↦ (ok (merge_effects effects cycle), world)
    | _ ∷ _ ↦ again (merge_effects effects cycle) world
  ]

  -- The loop of `drain`, with as many turns as are left; `draws` numbers the turns.
  unfoldable pub drain_loop :
      ℕ → (ℕ → Draw) → ℤ → MatchmakingEffects → World → Result Thrown MatchmakingEffects × World
  drain_loop zero draws observed effects world = (ok effects, world)
  drain_loop (suc left) draws observed effects world =
      drain_rest (drain_loop left draws observed) effects
        (attempt_match (draws left) observed world)

  unfoldable pub drain : (ℕ → Draw) → ℤ → World → Result Thrown MatchmakingEffects × World
  drain draws observed world =
      if ltb (length world.redis.queue) 2
      then (ok empty_effects, world)
      else drain_loop pair_budget draws observed empty_effects world

  abbrev pub with_queue :
      QueueJoin → Result Thrown MatchmakingEffects × World → Result Thrown JoinQueueResult × World
  with_queue queue (ok effects, world) = (ok (record { effects = effects; queue = queue }), world)
  with_queue queue (err e, world) = (err e, world)

  abbrev pub joined :
      Draw
      → ℤ
      → Database
      → Result MatchmakingError QueueJoin × Redis
      → Result Thrown JoinQueueResult × World
  joined draw observed db (err e, r) = (err (queue_error e), record { db = db; redis = r })
  joined draw observed db (ok queue, r) =
      with_queue queue (attempt_match draw observed (record { db = db; redis = r }))

  -- `join`, with the two questions asked before it.
  unfoldable pub join : Draw → Uuid → ℤ → World → Result Thrown JoinQueueResult × World
  join draw guest observed world =
      let eligibility = guest_match_eligibility guest observed world.db in
      let asked = record world { redis = prune_presence observed guest world.redis } in
      if present eligibility.active_game_id || not eligibility.eligible
      then (err (queue_error (failure already_in_game false)), asked)
      else if not (is_present observed guest world.redis)
      then (err (queue_error (failure not_present true)), asked)
      else joined draw observed world.db (enqueue guest observed asked.redis)

  -- `sweep`.
  unfoldable pub sweep_queue : ℤ → World → MatchmakingEffects × World
  sweep_queue observed world =
      let (removed, r) = sweep observed settings.max_wait_ms settings.batch_size world.redis in
      (record empty_effects { removed = removed }, record world { redis = r })

-- `leave` and `finallyDisconnected`.
unfoldable pub leave_queue : Uuid → World → Bool × World
leave_queue guest world =
    let (left, r) = leave guest world.redis in (left, record world { redis = r })
