-- ===== src/Matchmaking/Histories.antt =====
-- Sequences of the scripts of src/modules/matchmaking/infrastructure/lua.
use clu_chess.Base.{ℕ, List, [], ◌∷◌}
use clu_chess.Base.Number.{ℤ}
use clu_chess.Store.Rows.{Uuid}
use clu_chess.Allocation.Queries.{GuestMatchEligibility}
use clu_chess.Matchmaking.Exclusive.{IsExclusive, enqueue-IsExclusive, leave-IsExclusive}
use clu_chess.Matchmaking.Matching.{MatchRequest, try_match}
use clu_chess.Matchmaking.Placements.{finalize-IsExclusive, repair_committed-IsExclusive}
use clu_chess.Matchmaking.Queue.{enqueue, leave}
use clu_chess.Matchmaking.Redis.{MatchReservation, Redis}
use clu_chess.Matchmaking.Reserving.{try_match-IsExclusive}
use clu_chess.Matchmaking.Returning.{rollback-IsExclusive, sweep-IsExclusive}
use clu_chess.Matchmaking.Settling.{finalize, rollback, repair_committed}
use clu_chess.Matchmaking.Sweeping.{sweep}

pub data Script : Type 0 where
  enqueues : Uuid → ℤ → Script
  leaves : Uuid → Script
  matches : MatchRequest → Script
  finalizes : MatchReservation → Script
  rolls_back : MatchReservation → GuestMatchEligibility → GuestMatchEligibility → ℤ → Script
  repairs : Uuid → Uuid → Uuid → Script
  sweeps : ℤ → ℤ → ℕ → Script

-- What a script leaves.
unfoldable pub apply : Script → Redis → Redis
apply (enqueues guest now) r = (enqueue guest now r).1
apply (leaves guest) r = (leave guest r).1
apply (matches request) r = (try_match request r).1
apply (finalizes given) r = (finalize given r).1
apply (rolls_back given a b now) r = (rollback given a b now r).1
apply (repairs game_id a b) r = (repair_committed game_id a b r).1
apply (sweeps now max_wait batch) r = (sweep now max_wait batch r).1

unfoldable pub run : List Script → Redis → Redis
run [] r = r
run (script ∷ later) r = run later (apply script r)

apply-IsExclusive : (script : Script) (r : Redis) → IsExclusive r → IsExclusive (apply script r)
unfolding apply
apply-IsExclusive (enqueues guest now) r v = enqueue-IsExclusive guest now r v
apply-IsExclusive (leaves guest) r v = leave-IsExclusive guest r v
apply-IsExclusive (matches request) r v = try_match-IsExclusive request r v
apply-IsExclusive (finalizes given) r v = finalize-IsExclusive given r v
apply-IsExclusive (rolls_back given a b now) r v = rollback-IsExclusive given a b now r v
apply-IsExclusive (repairs game_id a b) r v = repair_committed-IsExclusive game_id a b r v
apply-IsExclusive (sweeps now max_wait batch) r v = sweep-IsExclusive now max_wait batch r v

-- Any sequence of the scripts enqueue, leave, try-match, finalize, rollback, repair-committed
-- and sweep, with any arguments, keeps this true while no key expires: a guest stands in the
-- queue at most once, and then in the state QUEUED; the guests of a reservation are RESERVED or
-- IN_GAME; and no guest is in two reservations.
pub run-IsExclusive :
    (scripts : List Script) (r : Redis) → IsExclusive r → IsExclusive (run scripts r)
unfolding run
run-IsExclusive [] r v = v
run-IsExclusive (script ∷ later) r v =
    run-IsExclusive later (apply script r) (apply-IsExclusive script r v)
