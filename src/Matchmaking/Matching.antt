-- ===== src/Matchmaking/Matching.antt =====
-- Forming a pair: try-match.lua, and `tryMatch` of matchmaking-script.service.ts.
use clu_chess.Base.{
  ℕ, zero, suc, ◌==◌, Bool, true, false, not, ◌||◌, Option, none, some, List, [], ◌∷◌, ◌++◌, Result,
  ok, err, if◌then◌else◌,
}
use clu_chess.Base.Number.{ℤ, ◌-ℤ◌, leb_ℤ}
use clu_chess.Store.Rows.{Uuid}
use clu_chess.Store.Soundness.{present}
use clu_chess.Matchmaking.Queue.{MatchmakingError, failure, reservation_mismatch, if_queued}
use clu_chess.Matchmaking.Redis.{
  Ticket, queued, reserved, MatchReservation, Redis, is_state, put, zadd, prune_presence,
  is_present,
}

pub data QueueExitReason : Type 0 where
  disconnected stale timeout : QueueExitReason

pub record RemovedQueueGuest : Type 0 where
  pub guest : Uuid
  pub reason : QueueExitReason

-- Why a ticket is not served; `is_present` is asked only if the wait is not over.
abbrev pub is_late : ℤ → ℤ → Ticket → Bool
is_late now max_wait t = leb_ℤ t.score (now -ℤ max_wait)

abbrev pub is_stale : Uuid → Redis → Bool
is_stale guest r =
    not (is_state queued (r.states guest)) || (not (r.guards guest) || present (r.active guest))

unfoldable pub reason_of : ℤ → ℤ → Ticket → Redis → Option QueueExitReason
reason_of now max_wait t r =
    if is_late now max_wait t
    then some timeout
    else if not (is_present now t.guest r)
    then some disconnected
    else if is_stale t.guest r
    then some stale
    else none

-- What asking has done to the connections.
unfoldable pub asked : ℤ → ℤ → Ticket → Redis → Redis
asked now max_wait t r = if is_late now max_wait t then r else prune_presence now t.guest r

-- `discard`.
unfoldable pub discard : Uuid → Redis → Redis
discard guest r = record r {
  guards = put guest false r.guards;
  states = put guest (if_queued (r.states guest) none) r.states;
}

-- The state of the loop.
pub record Scan : Type 0 where
  pub redis : Redis
  pub candidates : List Ticket
  pub discarded : List RemovedQueueGuest

abbrev pub has_pair : List Ticket → Bool
has_pair (_ ∷ _ ∷ []) = true
has_pair _ = false

-- `ZPOPMIN`: the first ticket, served or discarded.
unfoldable pub examine : ℤ → ℤ → Ticket → List Ticket → Scan → Scan
examine now max_wait t rest s =
    let r = asked now max_wait t (record s.redis { queue = rest }) in
    elim (reason_of now max_wait t s.redis) [
      | none ↦ record s { redis = r; candidates = s.candidates ++ t ∷ [] }
      | some reason ↦ record s {
        redis = discard t.guest r;
        discarded = s.discarded ++ record { guest = t.guest; reason = reason } ∷ [];
      }
    ]

abbrev pub pop : ℤ → ℤ → List Ticket → Scan → Scan
pop now max_wait [] s = s
pop now max_wait (t ∷ rest) s = examine now max_wait t rest s

-- One turn of the loop; once there is a pair or no ticket, a turn changes nothing.
unfoldable pub turn : ℤ → ℤ → Scan → Scan
turn now max_wait s = if has_pair s.candidates then s else pop now max_wait s.redis.queue s

-- `for _ = 1, max_scan do`.
unfoldable pub scan : ℕ → ℤ → ℤ → Scan → Scan
scan zero now max_wait s = s
scan (suc n) now max_wait s = scan n now max_wait (turn now max_wait s)

-- The candidates go back into the queue.
unfoldable pub put_back : List Ticket → List Ticket → List Ticket
put_back [] q = q
put_back (t ∷ ts) q = put_back ts (zadd t q)

pub record MatchRequest : Type 0 where
  pub now : ℤ
  pub max_wait : ℤ
  pub max_scan : ℕ
  pub match_id : Uuid
  pub game_id : Uuid

pub record MatchAttempt : Type 0 where
  pub discarded : List RemovedQueueGuest
  pub reservation : Option MatchReservation

unfoldable pub reservation_of : MatchRequest → Ticket → Ticket → MatchReservation
reservation_of request a b = record {
  a = a.guest;
  a_score = a.score;
  b = b.guest;
  b_score = b.score;
  created_at = request.now;
  game_id = request.game_id;
  match_id = request.match_id;
}

-- The two are reserved.
unfoldable pub reserve : MatchRequest → Ticket → Ticket → Redis → Redis
reserve request a b r = record r {
  states = put b.guest (some reserved) (put a.guest (some reserved) r.states);
  guards = put b.guest false (put a.guest false r.guards);
  reservations = put request.match_id (some (reservation_of request a b)) r.reservations;
}

unfoldable pub conclude : MatchRequest → List Ticket → Scan → MatchAttempt × Redis
conclude request (a ∷ b ∷ []) s =
    if a.guest == b.guest
    then (
      record { discarded = []; reservation = none },
      record s.redis { queue = zadd a s.redis.queue },
    )
    else (
      record { discarded = s.discarded; reservation = some (reservation_of request a b) },
      reserve request a b s.redis,
    )
conclude request candidates s = (
  record { discarded = s.discarded; reservation = none },
  record s.redis { queue = put_back candidates s.redis.queue },
)

abbrev pub opening : Redis → Scan
opening r = record { redis = r; candidates = []; discarded = [] }

unfoldable pub try_match : MatchRequest → Redis → Result MatchmakingError MatchAttempt × Redis
try_match request r = elim (r.reservations request.match_id) [
  | some _ ↦ (err (failure reservation_mismatch false), r)
  | none ↦
      let s = scan request.max_scan request.now request.max_wait (opening r) in
      let (attempt, after) = conclude request s.candidates s in (ok attempt, after)
]
