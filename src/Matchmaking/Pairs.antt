-- ===== src/Matchmaking/Pairs.antt =====
-- A pair that has been reserved, and what settles it (try-match.lua, finalize.lua, rollback.lua).
use mathlib.Core.Path.{subst}
use clu_chess.Base.{
  ◌+◌, ◌≡◌, refl, ◌==◌, Bool, true, false, Option, none, some, List, [], ◌∷◌, arith, if◌then◌else◌,
  Result, ok, err,
}
use clu_chess.Base.Number.{ℤ}
use clu_chess.Store.Rows.{Uuid}
use clu_chess.Allocation.Queries.{GuestMatchEligibility}
use clu_chess.Matchmaking.Conservation.{attempt_of, count-try_match}
use clu_chess.Matchmaking.Matching.{
  Scan, MatchRequest, MatchAttempt, scan, conclude, opening, try_match, reserve, reservation_of,
}
use clu_chess.Matchmaking.Queue.{failure, reservation_mismatch, MatchmakingError}
use clu_chess.Matchmaking.Redis.{
  Ticket, in_game, queued, reserved, MatchReservation, Redis, put, zadd, zscore, is_present,
  prune_presence,
}
use clu_chess.Matchmaking.Settling.{
  finalize, rollback, restore, requeue, enter_game, drop_guard, drop_reservation,
}
use clu_chess.Matchmaking.Tickets.{
  count_removed, count-zadd, zscore-zadd_self, zscore-zadd_other, zscore-absent, one, count,
  IsUnique,
}

-- What a reservation leaves in Redis.
pub record IsReserved (m : MatchReservation) (r : Redis) : Type 0 where
  pub two : (m.a == m.b) ≡ false
  pub stored : r.reservations m.match_id ≡ some m
  pub state_a : r.states m.a ≡ some reserved
  pub state_b : r.states m.b ≡ some reserved
  pub guard_a : r.guards m.a ≡ false
  pub guard_b : r.guards m.b ≡ false

reserve-IsReserved :
    (request : MatchRequest) (a b : Ticket) (r : Redis)
    → (a.guest == b.guest) ≡ false
    → IsReserved (reservation_of request a b) (reserve request a b r)
unfolding reserve reservation_of put
reserve-IsReserved request a b r h = record {
  two = h;
  stored = ground arith;
  state_a = ground (arith, h);
  state_b = ground arith;
  guard_a = ground (arith, h);
  guard_b = ground arith;
}

conclude-IsReserved :
    (request : MatchRequest) (cs : List Ticket) (s : Scan) (m : MatchReservation)
    → (conclude request cs s).0.reservation ≡ some m
    → IsReserved m (conclude request cs s).1
unfolding conclude
conclude-IsReserved request (a ∷ b ∷ []) s m h = pair (a.guest == b.guest) refl h
  where
    kept : MatchAttempt × Redis
    kept = (
      record { discarded = []; reservation = none },
      record s.redis { queue = zadd a s.redis.queue },
    )

    made : MatchAttempt × Redis
    made = (
      record { discarded = s.discarded; reservation = some (reservation_of request a b) },
      reserve request a b s.redis,
    )

    pair :
        (same : Bool)
        → (a.guest == b.guest) ≡ same
        → (if same then kept else made).0.reservation ≡ some m
        → IsReserved m (if same then kept else made).1
    pair true e h = cc
    pair false e h =
        subst (λ x. IsReserved x (reserve request a b s.redis)) (ground arith)
          (reserve-IsReserved request a b s.redis e)
conclude-IsReserved request [] s m h = cc
conclude-IsReserved request (a ∷ []) s m h = cc
conclude-IsReserved request (a ∷ b ∷ c ∷ cs) s m h = cc

-- What a reserved pair is, and that neither of the two waits.
pub try_match-IsReserved :
    (request : MatchRequest) (r : Redis) (m : MatchReservation)
    → (attempt_of (try_match request r)).0.reservation ≡ some m
    → IsReserved m (attempt_of (try_match request r)).1
unfolding try_match
try_match-IsReserved request r m h = sought (r.reservations request.match_id) refl h
  where
    s : Scan
    s = scan request.max_scan request.now request.max_wait (opening r)

    result : Option MatchReservation → Result MatchmakingError MatchAttempt × Redis
    result (some _) = (err (failure reservation_mismatch false), r)
    result none = let (attempt, after) = conclude request s.candidates s in (ok attempt, after)

    sought :
        (o : Option MatchReservation)
        → r.reservations request.match_id ≡ o
        → (attempt_of (result o)).0.reservation ≡ some m
        → IsReserved m (attempt_of (result o)).1
    sought (some x) e h = cc
    sought none e h = conclude-IsReserved request s.candidates s m h

-- What `finalize` leaves.
pub record IsFinal (m : MatchReservation) (r : Redis) : Type 0 where
  pub state_a : r.states m.a ≡ some in_game
  pub state_b : r.states m.b ≡ some in_game
  pub active_a : r.active m.a ≡ some m.game_id
  pub active_b : r.active m.b ≡ some m.game_id
  pub settled : r.reservations m.match_id ≡ none

pub finalize_lem :
    (m : MatchReservation) (r : Redis)
    → IsReserved m r
    → (finalize m r).0 ≡ ok true × IsFinal m (finalize m r).1
unfolding finalize drop_guard drop_reservation enter_game put
finalize_lem m r h = (
  ground (arith, h.stored),
  record {
    state_a = ground (arith, h.stored, h.two);
    state_b = ground (arith, h.stored);
    active_a = ground (arith, h.stored, h.two);
    active_b = ground (arith, h.stored);
    settled = ground (arith, h.stored);
  },
)

finalized_twice : (m : MatchReservation) (r : Redis) → IsFinal m r → finalize m r ≡ (ok false, r)
unfolding finalize
finalized_twice m r h = ground (arith, h.settled, h.active_a, h.active_b)

-- Twice.
pub finalize-finalize :
    (m : MatchReservation) (r : Redis)
    → IsReserved m r
    → ((finalize m r).0 ≡ ok true)
      × IsFinal m (finalize m r).1
      × (finalize m (finalize m r).1 ≡ (ok false, (finalize m r).1))
finalize-finalize m r h =
    let (answer, final) = finalize_lem m r h in
    (answer, final, finalized_twice m (finalize m r).1 final)

-- A guest who may wait again.
abbrev pub free_guest : GuestMatchEligibility
free_guest = record { active_game_id = none; eligible = true }

-- Both are in the queue again.
pub record IsWaiting (m : MatchReservation) (before after : Redis) : Type 0 where
  pub score_a : zscore m.a after.queue ≡ some m.a_score
  pub score_b : zscore m.b after.queue ≡ some m.b_score
  pub state_a : after.states m.a ≡ some queued
  pub state_b : after.states m.b ≡ some queued
  pub guard_a : after.guards m.a ≡ true
  pub guard_b : after.guards m.b ≡ true
  pub settled : after.reservations m.match_id ≡ none
  pub others :
      (g : Uuid)
      → (m.a == g) ≡ false
      → (m.b == g) ≡ false
      → zscore g after.queue ≡ zscore g before.queue

restore_free :
    (now : ℤ) (guest : Uuid) (score : ℤ) (r : Redis)
    → is_present now guest r ≡ true
    → zscore guest r.queue ≡ none
    → restore now guest score free_guest r ≡ (
      true,
      requeue guest score
          (prune_presence now guest (record r { active = put guest none r.active })),
    )
unfolding restore is_present
restore_free now guest score r h k = ground (arith, h)

-- The queue and the presence once the first guest waits again.
abbrev again : ℤ → Uuid → ℤ → Redis → Redis
again now guest score r =
    requeue guest score (prune_presence now guest (record r { active = put guest none r.active }))

again_queue :
    (now : ℤ) (guest : Uuid) (score : ℤ) (r : Redis)
    → zscore guest r.queue ≡ none
    → (again now guest score r).queue ≡ zadd (record { guest = guest; score = score }) r.queue
unfolding requeue prune_presence
again_queue now guest score r h = ground (arith, h)

again_present :
    (now : ℤ) (guest other : Uuid) (score : ℤ) (r : Redis)
    → (guest == other) ≡ false
    → is_present now other (again now guest score r) ≡ is_present now other r
unfolding requeue prune_presence is_present put
again_present now guest other score r h = ground (arith, h)

module _ (now : ℤ) (m : MatchReservation) (r : Redis) (h : IsReserved m r)
    (gone_a : zscore m.a r.queue ≡ none) (gone_b : zscore m.b r.queue ≡ none)
    (here_a : is_present now m.a r ≡ true) (here_b : is_present now m.b r ≡ true) where
  first : Redis
  first = again now m.a m.a_score r

  second : Redis
  unfolding first
  second = again now m.b m.b_score first

  still_gone : zscore m.b first.queue ≡ none
  unfolding first
  still_gone = ground (
    arith,
    gone_b,
    h.two,
    again_queue now m.a m.a_score r gone_a,
    zscore-zadd_other m.b (record { guest = m.a; score = m.a_score }) r.queue h.two,
  )

  still_here : is_present now m.b first ≡ true
  unfolding first
  still_here = ground (arith, here_b, again_present now m.a m.b m.a_score r h.two)

  rolled_back : rollback m free_guest free_guest now r ≡ (
    ok (record { guest = m.a; score = m.a_score } ∷ record { guest = m.b; score = m.b_score } ∷ []),
    drop_reservation m.match_id second,
  )
  unfolding rollback first second
  rolled_back = ground (
    arith,
    h.stored,
    restore_free now m.a m.a_score r here_a gone_a,
    restore_free now m.b m.b_score first still_here still_gone,
  )

  second_queue :
      second.queue
      ≡ zadd
          (record { guest = m.b; score = m.b_score })
          (zadd (record { guest = m.a; score = m.a_score }) r.queue)
  unfolding second first
  second_queue = ground (
    arith,
    again_queue now m.a m.a_score r gone_a,
    again_queue now m.b m.b_score first still_gone,
  )

  count-second :
      (g : Uuid)
      → count m.a r.queue ≡ 0
      → count m.b r.queue ≡ 0
      → count g (drop_reservation m.match_id second).queue
        ≡ one (m.a == g) + one (m.b == g) + count g r.queue
  unfolding drop_reservation
  count-second g none_a none_b =
      let ticket_a : Ticket = record { guest = m.a; score = m.a_score } in
      let ticket_b : Ticket = record { guest = m.b; score = m.b_score } in
      ground (
        arith,
        h.two,
        second_queue,
        count-zadd g ticket_a r.queue none_a,
        count-zadd m.b ticket_a r.queue none_a,
        count-zadd g ticket_b (zadd ticket_a r.queue),
      )

  second-IsWaiting : IsWaiting m r (drop_reservation m.match_id second)
  unfolding drop_reservation put
  second-IsWaiting =
      let ticket_a : Ticket = record { guest = m.a; score = m.a_score } in
      let ticket_b : Ticket = record { guest = m.b; score = m.b_score } in
      let one_in = zadd ticket_a r.queue in
      record {
        score_a = ground (
          arith,
          h.two,
          second_queue,
          zscore-zadd_other m.a ticket_b one_in,
          zscore-zadd_self ticket_a r.queue,
        );
        score_b = ground (arith, second_queue, zscore-zadd_self ticket_b one_in);
        state_a = unfold second first requeue prune_presence in ground (arith, h.two);
        state_b = unfold second first requeue prune_presence in ground arith;
        guard_a = unfold second first requeue prune_presence in ground (arith, h.two);
        guard_b = unfold second first requeue prune_presence in ground arith;
        settled = ground arith;
        others = λ g na nb. ground (
          arith,
          second_queue,
          zscore-zadd_other g ticket_b one_in nb,
          zscore-zadd_other g ticket_a r.queue na,
        );
      }

-- A guest who has been reserved is not in the queue.
not_queued :
    (request : MatchRequest) (r : Redis) (m : MatchReservation) (g : Uuid)
    → IsUnique r.queue
    → (attempt_of (try_match request r)).0.reservation ≡ some m
    → one (m.a == g) + one (m.b == g) ≡ 1
    → count g (attempt_of (try_match request r)).1.queue ≡ 0
not_queued request r m g u h e = ground (arith, count-try_match g request r u, u g)

-- What a rollback gives back.
pub rollback-try_match :
    (request : MatchRequest) (now : ℤ) (r : Redis) (m : MatchReservation)
    → IsUnique r.queue
    → let (attempt, reserved_in) = attempt_of (try_match request r) in
      attempt.reservation ≡ some m
      → is_present now m.a reserved_in ≡ true
      → is_present now m.b reserved_in ≡ true
      → let (answer, after) = rollback m free_guest free_guest now reserved_in in
        (answer
          ≡ ok (
              record { guest = m.a; score = m.a_score }
              ∷ record { guest = m.b; score = m.b_score }
              ∷ []))
        × IsWaiting m reserved_in after
        × ((g : Uuid) → count g after.queue + count_removed g attempt.discarded ≡ count g r.queue)
rollback-try_match request now r m u h here_a here_b =
    let reserved_in = (attempt_of (try_match request r)).1 in
    let held = try_match-IsReserved request r m h in
    let none_a : count m.a reserved_in.queue ≡ 0 =
      not_queued request r m m.a u h (ground (arith, held.two)) in
    let none_b : count m.b reserved_in.queue ≡ 0 =
      not_queued request r m m.b u h (ground (arith, held.two)) in
    let gone_a = zscore-absent m.a reserved_in.queue none_a in
    let gone_b = zscore-absent m.b reserved_in.queue none_b in
    let e = rolled_back now m reserved_in held gone_a gone_b here_a here_b in
    rw e (
      refl,
      second-IsWaiting now m reserved_in held gone_a gone_b here_a here_b,
      λ g. ground (
        arith,
        count-second now m reserved_in held gone_a gone_b here_a here_b g none_a none_b,
        count-try_match g request r u,
        h,
      ),
    )
