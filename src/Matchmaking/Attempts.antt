-- ===== src/Matchmaking/Attempts.antt =====
-- An attempt to match, from the queue to the tables and back (`attemptMatch` of
-- matchmaking.service.ts).
use clu_chess.Base.{◌+◌, ◌≡◌, refl, true, none, some, List, [], ◌∷◌, ◌++◌, ok, err, arith}
use clu_chess.Base.Number.{ℤ}
use clu_chess.Chess.{ChessEngine}
use clu_chess.Store.Rows.{Uuid, Database}
use clu_chess.Allocation.Queries.{guest_match_eligibility, find_by_match_id}
use clu_chess.Allocation.Records.{GameAllocation}
use clu_chess.Matchmaking.Conservation.{attempt_of}
use clu_chess.Matchmaking.Matching.{MatchRequest, try_match}
use clu_chess.Matchmaking.Pairs.{
  IsReserved, IsFinal, IsWaiting, finalize_lem, free_guest, try_match-IsReserved,
  rollback-try_match,
}
use clu_chess.Matchmaking.Redis.{Ticket, MatchReservation, Redis, is_present}
use clu_chess.Matchmaking.Service.{
  World, Settings, Draw, Thrown, process_reservation, allocate_reservation, attempt_match,
  finalize_committed, recover, roll_back, empty_effects,
}
use clu_chess.Matchmaking.Settling.{finalize, rollback}
use clu_chess.Matchmaking.Tickets.{count, count_removed, IsUnique}

module _ (settings : Settings) (chess : ChessEngine) where
  finalize_commits :
      (m : MatchReservation) (a : GameAllocation) (r : Redis)
      → IsReserved m r
      → finalize_committed settings chess m a r ≡ (ok tt, (finalize m r).1)
  unfolding finalize_committed
  finalize_commits m a r h = ground (arith, (finalize_lem m r h).0)

  commits :
      (draw : Draw) (m : MatchReservation) (observed : ℤ) (world : World) (a : GameAllocation)
      (db : Database)
      → IsReserved m world.redis
      → allocate_reservation settings chess draw m observed world.db ≡ (ok a, db)
      → process_reservation settings chess draw m observed world ≡ (
        ok (record empty_effects { allocations = a ∷ [] }),
        record { db = db; redis = (finalize m world.redis).1 },
      )
  unfolding process_reservation
  commits draw m observed world a db h e = ground (arith, e, finalize_commits m a world.redis h)

  -- The request of an attempt.
  abbrev pub request_of : Draw → ℤ → MatchRequest
  request_of draw observed = record {
    now = observed;
    max_wait = settings.max_wait_ms;
    max_scan = settings.batch_size;
    match_id = draw.match_id;
    game_id = draw.game_id;
  }

  found_pair :
      (draw : Draw) (observed : ℤ) (world : World) (m : MatchReservation)
      → let (attempt, r) = attempt_of (try_match (request_of draw observed) world.redis) in
        attempt.reservation ≡ some m
        → try_match (request_of draw observed) world.redis ≡ (ok attempt, r)
  found_pair draw observed world m h = ground (arith, h)

  -- If an attempt to match reserves two guests and their game is allocated, the attempt answers
  -- with that game and with those it has discarded, the tables are those of the allocation,
  -- both guests are IN_GAME with the game as their active one, and the reservation is gone.
  pub attempt_commits :
      (draw : Draw) (observed : ℤ) (world : World) (m : MatchReservation) (a : GameAllocation)
      (db : Database)
      → let (attempt, r) = attempt_of (try_match (request_of draw observed) world.redis) in
        attempt.reservation ≡ some m
        → allocate_reservation settings chess draw m observed world.db ≡ (ok a, db)
        → (attempt_match settings chess draw observed world ≡ (
          ok (record empty_effects { allocations = a ∷ []; removed = attempt.discarded ++ [] }),
          record { db = db; redis = (finalize m r).1 },
        ))
          × IsFinal m (finalize m r).1
  attempt_commits draw observed world m a db h e =
      let (attempt, r) = attempt_of (try_match (request_of draw observed) world.redis) in
      let held = try_match-IsReserved (request_of draw observed) world.redis m h in
      (
        unfold attempt_match in
            ground (
              arith,
              h,
              found_pair draw observed world m h,
              commits draw m observed (record { db = world.db; redis = r }) a db held e,
            ),
        (finalize_lem m r held).1,
      )

  recovers :
      (draw : Draw) (m : MatchReservation) (observed : ℤ) (world : World) (e : Thrown)
      (db : Database) (tickets : List Ticket) (after : Redis)
      → allocate_reservation settings chess draw m observed world.db ≡ (err e, db)
      → find_by_match_id m.match_id db ≡ ok none
      → guest_match_eligibility m.a observed db ≡ free_guest
      → guest_match_eligibility m.b observed db ≡ free_guest
      → rollback m free_guest free_guest observed world.redis ≡ (ok tickets, after)
      → process_reservation settings chess draw m observed world
        ≡ (ok (record empty_effects { requeued = tickets }), record { db = db; redis = after })
  unfolding process_reservation recover roll_back
  recovers draw m observed world e db tickets after fails unknown free_a free_b back =
      ground (arith, fails, unknown, free_a, free_b, back)

  -- If an attempt to match reserves two guests but their game cannot be allocated, and no game
  -- of the match is stored, both guests are still eligible, without an active game and present,
  -- and nobody stood in the queue twice, then the attempt answers that both wait again since
  -- when they joined, their reservation is gone, their states and guards are those of the
  -- queue, and everybody who stood in the queue stands there again, but for those the attempt
  -- has discarded.
  pub attempt_returns :
      (draw : Draw) (observed : ℤ) (world : World) (m : MatchReservation) (e : Thrown)
      (db : Database)
      → IsUnique world.redis.queue
      → let (attempt, r) = attempt_of (try_match (request_of draw observed) world.redis) in
        attempt.reservation ≡ some m
        → allocate_reservation settings chess draw m observed world.db ≡ (err e, db)
        → find_by_match_id m.match_id db ≡ ok none
        → guest_match_eligibility m.a observed db ≡ free_guest
        → guest_match_eligibility m.b observed db ≡ free_guest
        → is_present observed m.a r ≡ true
        → is_present observed m.b r ≡ true
        → let (answer, after) = attempt_match settings chess draw observed world in
          (answer
            ≡ ok (record {
              allocations = [];
              requeued =
                  record { guest = m.a; score = m.a_score }
                  ∷ record { guest = m.b; score = m.b_score }
                  ∷ [];
              removed = attempt.discarded ++ [];
            }))
          × IsWaiting m r after.redis
          × ((g : Uuid)
              → count g after.redis.queue + count_removed g attempt.discarded
                ≡ count g world.redis.queue)
  attempt_returns draw observed world m e db u h fails unknown free_a free_b here_a here_b =
      let (attempt, r) = attempt_of (try_match (request_of draw observed) world.redis) in
      let (answer, waiting, counts) =
        rollback-try_match (request_of draw observed) observed world.redis m u h here_a here_b in
      let after = (rollback m free_guest free_guest observed r).1 in
      let tickets : List Ticket =
        record { guest = m.a; score = m.a_score }
        ∷ record { guest = m.b; score = m.b_score }
        ∷ [] in
      let done : attempt_match settings chess draw observed world ≡ (
        ok (record {
          allocations = [];
          requeued =
              record { guest = m.a; score = m.a_score }
              ∷ record { guest = m.b; score = m.b_score }
              ∷ [];
          removed = attempt.discarded ++ [];
        }),
        record { db = db; redis = after },
      ) =
        unfold attempt_match in
        ground (
          arith,
          h,
          found_pair draw observed world m h,
          recovers draw m observed (record { db = world.db; redis = r }) e db tickets after fails
              unknown free_a free_b (ground (arith, answer)),
        ) in
      rw done (refl, waiting, counts)
