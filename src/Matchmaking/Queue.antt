-- ===== src/Matchmaking/Queue.antt =====
-- Joining and leaving the queue: enqueue.lua, leave.lua, and `enqueue`, `leave` of
-- matchmaking-script.service.ts.
use clu_chess.Base.{ℕ, Bool, true, false, ◌||◌, Option, none, some, Result, ok, err, if◌then◌else◌}
use clu_chess.Base.Number.{ℤ}
use clu_chess.Store.Rows.{Uuid}
use clu_chess.Store.Soundness.{present}
use clu_chess.Matchmaking.Redis.{
  UserState, idle, in_game, queued, reserved, Redis, is_state, put, zrem, zadd, zscore, position,
}

pub data MatchmakingErrorCode : Type 0 where
  already_in_game dependency_unavailable match_allocation_conflict not_present :
      MatchmakingErrorCode
  reservation_mismatch : MatchmakingErrorCode

-- `MatchmakingError`, less its message.
pub record MatchmakingError : Type 0 where
  pub code : MatchmakingErrorCode
  pub retryable : Bool

abbrev pub failure : MatchmakingErrorCode → Bool → MatchmakingError
failure code retryable = record { code = code; retryable = retryable }

pub record QueueJoin : Type 0 where
  pub duplicate : Bool
  pub position : ℕ
  pub since : ℤ

pub data EnqueueResponse : Type 0 where
  error : EnqueueResponse
  joined : QueueJoin → EnqueueResponse

abbrev pub is_taken : Uuid → Redis → Bool
is_taken guest r =
    present (r.active guest)
    || (is_state reserved (r.states guest) || is_state in_game (r.states guest))

-- The guard and the state of a guest who waits.
unfoldable pub mark_queued : Uuid → Redis → Redis
mark_queued guest r = record r {
  guards = put guest true r.guards;
  states = put guest (some queued) r.states;
}

unfoldable pub add_ticket : Uuid → ℤ → Redis → Redis
add_ticket guest now r = record r { queue = zadd (record { guest = guest; score = now }) r.queue }

-- enqueue.lua.
unfoldable pub enqueue_script : Uuid → ℤ → Redis → EnqueueResponse × Redis
enqueue_script guest now r = if is_taken guest r then (error, r) else elim (zscore guest r.queue) [
  | some score ↦ (
    joined (record { duplicate = true; position = position guest r.queue; since = score }),
    mark_queued guest r,
  )
  | none ↦
      let after = mark_queued guest (add_ticket guest now r) in
      (
        joined (record { duplicate = false; position = position guest after.queue; since = now }),
        after,
      )
]

abbrev pub enqueue_answer : EnqueueResponse → Result MatchmakingError QueueJoin
enqueue_answer error = err (failure already_in_game false)
enqueue_answer (joined j) = ok j

unfoldable pub enqueue : Uuid → ℤ → Redis → Result MatchmakingError QueueJoin × Redis
enqueue guest now r =
    let (response, after) = enqueue_script guest now r in (enqueue_answer response, after)

-- A state that is QUEUED becomes IDLE.
abbrev pub if_queued : Option UserState → Option UserState → Option UserState
if_queued (some queued) next = next
if_queued state next = state

-- leave.lua, and whether the guest was in the queue.
unfoldable pub leave : Uuid → Redis → Bool × Redis
leave guest r = (
  present (zscore guest r.queue),
  record r {
    queue = zrem guest r.queue;
    guards = put guest false r.guards;
    states = put guest (if_queued (r.states guest) (some idle)) r.states;
  },
)
