-- ===== src/Matchmaking/Settling.antt =====
-- What becomes of a reservation: finalize.lua, rollback.lua, repair-committed.lua, and `finalize`,
-- `rollback`, `repairCommitted` of matchmaking-script.service.ts.
use clu_chess.Base.{
  ◌==◌, Bool, true, false, not, ◌&&◌, ◌||◌, Option, none, some, List, [], ◌∷◌, ◌++◌, Result, ok,
  err, if◌then◌else◌,
}
use clu_chess.Base.Number.{ℤ, ltb_ℤ}
use clu_chess.Store.Rows.{Uuid}
use clu_chess.Store.Soundness.{present}
use clu_chess.Allocation.Queries.{GuestMatchEligibility}
use clu_chess.Matchmaking.Queue.{MatchmakingError, failure, reservation_mismatch}
use clu_chess.Matchmaking.Redis.{
  Ticket, idle, in_game, queued, reserved, MatchReservation, Redis, is_state, put, zrem, zadd,
  zscore, prune_presence, is_present,
}

-- `GET key == id`.
abbrev pub holds : Uuid → Option Uuid → Bool
holds id none = false
holds id (some x) = x == id

-- The stored reservation is the one that is meant.
abbrev pub same_reservation : MatchReservation → MatchReservation → Bool
same_reservation stored given =
    (stored.match_id == given.match_id)
    && ((stored.a == given.a) && ((stored.b == given.b) && (stored.game_id == given.game_id)))

-- `IN_GAME` with the game.
unfoldable pub enter_game : Uuid → Uuid → Redis → Redis
enter_game game_id guest r = record r {
  states = put guest (some in_game) r.states;
  active = put guest (some game_id) r.active;
}

unfoldable pub drop_guard : Uuid → Redis → Redis
drop_guard guest r = record r { guards = put guest false r.guards }

unfoldable pub drop_reservation : Uuid → Redis → Redis
drop_reservation match_id r = record r { reservations = put match_id none r.reservations }

abbrev pub mismatch : {A : Type 0} → Redis → Result MatchmakingError A × Redis
mismatch r = (err (failure reservation_mismatch false), r)

-- Whether this call has finalized the match.
unfoldable pub finalize : MatchReservation → Redis → Result MatchmakingError Bool × Redis
finalize given r = elim (r.reservations given.match_id) [
  | none ↦
      if holds given.game_id (r.active given.a) && holds given.game_id (r.active given.b)
      then (ok false, r)
      else mismatch r
  | some stored ↦
      if same_reservation stored given
      then (
        ok true,
        drop_guard given.b (
            drop_guard given.a (
              drop_reservation given.match_id
                (enter_game given.game_id given.b (enter_game given.game_id given.a r)))),
      )
      else mismatch r
]

-- `is_settled`.
abbrev pub is_settled : Uuid → Option Uuid → Redis → Bool
is_settled guest (some game_id) r =
    holds game_id (r.active guest) && is_state in_game (r.states guest)
is_settled guest none r =
    (present (zscore guest r.queue) && (is_state queued (r.states guest) && r.guards guest))
    || (not (present (zscore guest r.queue))
        && (not (present (r.active guest)) && not (is_state reserved (r.states guest))))

-- The ticket is added, unless there is one that is as early.
abbrev pub earlier : ℤ → Option ℤ → Bool
earlier score none = true
earlier score (some current) = ltb_ℤ score current

unfoldable pub requeue : Uuid → ℤ → Redis → Redis
requeue guest score r = record r {
  queue =
      if earlier score (zscore guest r.queue)
      then zadd (record { guest = guest; score = score }) r.queue
      else r.queue;
  guards = put guest true r.guards;
  states = put guest (some queued) r.states;
}

unfoldable pub retire : Uuid → Redis → Redis
retire guest r = record r {
  queue = zrem guest r.queue;
  guards = put guest false r.guards;
  states = put guest (some idle) r.states;
}

-- `restore`, and whether the guest is in the queue again.
unfoldable pub restore : ℤ → Uuid → ℤ → GuestMatchEligibility → Redis → Bool × Redis
restore now guest score durable r = elim durable.active_game_id [
  | some game_id ↦ (
    false,
    enter_game game_id guest
        (record r { queue = zrem guest r.queue; guards = put guest false r.guards }),
  )
  | none ↦
      let free = record r { active = put guest none r.active } in
      if not durable.eligible
      then (false, retire guest free)
      else let asked = prune_presence now guest free in
        if is_present now guest free
        then (true, requeue guest score asked)
        else (false, retire guest asked)
]

abbrev pub listed : Bool → Uuid → ℤ → List Ticket
listed false guest score = []
listed true guest score = record { guest = guest; score = score } ∷ []

-- The guests that are in the queue again, with their times.
unfoldable pub rollback :
    MatchReservation
    → GuestMatchEligibility
    → GuestMatchEligibility
    → ℤ
    → Redis
    → Result MatchmakingError (List Ticket) × Redis
rollback given a b now r = elim (r.reservations given.match_id) [
  | none ↦
      if is_settled given.a a.active_game_id r && is_settled given.b b.active_game_id r
      then (ok [], r)
      else mismatch r
  | some stored ↦
      if same_reservation stored given
      then (let (again_a, r1) = restore now given.a given.a_score a r in
          let (again_b, r2) = restore now given.b given.b_score b r1 in
          (
            ok (listed again_a given.a given.a_score ++ listed again_b given.b given.b_score),
            drop_reservation given.match_id r2,
          ))
      else mismatch r
]

abbrev pub disagrees : Uuid → Option Uuid → Bool
disagrees game_id none = false
disagrees game_id (some x) = not (x == game_id)

-- Whether anything had to be repaired.
unfoldable pub repair_committed : Uuid → Uuid → Uuid → Redis → Result MatchmakingError Bool × Redis
repair_committed game_id a b r =
    if disagrees game_id (r.active a) || disagrees game_id (r.active b) then mismatch r else (
      ok (
          not (holds game_id (r.active a))
          || (not (holds game_id (r.active b))
              || (not (is_state in_game (r.states a)) || not (is_state in_game (r.states b))))),
      drop_guard b (
          drop_guard a (record (enter_game game_id b (enter_game game_id a r)) {
            queue = zrem b (zrem a r.queue);
          })),
    )
