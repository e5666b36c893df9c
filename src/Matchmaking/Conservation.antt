-- ===== src/Matchmaking/Conservation.antt =====
-- Nobody is lost when a pair is sought (try-match.lua).
use clu_chess.Base.{
  Result, ℕ, zero, suc, ◌+◌, ◌≤◌, ◌≡◌, refl, ◌∙◌, ◌==◌, false, Option, none, some, List, [], ◌∷◌,
  arith, Bool-cases, inl, inr, ok, err,
}
use clu_chess.Base.Number.{ℤ}
use clu_chess.Store.Rows.{Uuid}
use clu_chess.Matchmaking.Matching.{
  QueueExitReason, Scan, MatchRequest, MatchAttempt, examine, turn, pop, scan, conclude, opening,
  try_match, asked, discard, reason_of, put_back, reserve, reservation_of, has_pair,
}
use clu_chess.Matchmaking.Queue.{MatchmakingError}
use clu_chess.Matchmaking.Redis.{Ticket, MatchReservation, Redis, prune_presence}
use clu_chess.Matchmaking.Tickets.{
  one, count, count_removed, count-++, count_removed-++, count-put_back, IsUnique,
}

-- Where a guest may be in the loop.
abbrev pub total : Uuid → Scan → ℕ
total g s = count g s.redis.queue + (count g s.candidates + count_removed g s.discarded)

pub asked_queue :
    (now max_wait : ℤ) (t : Ticket) (r : Redis) → (asked now max_wait t r).queue ≡ r.queue
unfolding asked prune_presence
asked_queue now max_wait t r = ground arith

-- A ticket that is served, or discarded, is moved.
total-examine :
    (g : Uuid) (now max_wait : ℤ) (t : Ticket) (rest : List Ticket) (s : Scan)
    → s.redis.queue ≡ t ∷ rest
    → total g (examine now max_wait t rest s) ≡ total g s
total-examine g now max_wait t rest s h = moved (reason_of now max_wait t s.redis) refl
  where
    moved :
        (o : Option QueueExitReason)
        → reason_of now max_wait t s.redis ≡ o
        → total g (examine now max_wait t rest s) ≡ total g s
    moved none e =
        unfold examine in
        ground (
          arith,
          e,
          h,
          count-++ g s.candidates (t ∷ []),
          asked_queue now max_wait t (record s.redis { queue = rest }),
        )
    moved (some reason) e =
        unfold examine discard in
        ground (
          arith,
          e,
          h,
          count_removed-++ g s.discarded (record { guest = t.guest; reason = reason } ∷ []),
          asked_queue now max_wait t (record s.redis { queue = rest }),
        )

total-turn : (g : Uuid) (now max_wait : ℤ) (s : Scan) → total g (turn now max_wait s) ≡ total g s
total-turn g now max_wait s = elim (Bool-cases (has_pair s.candidates)) [
  | inl paired ↦ unfold turn in rw paired refl
  | inr single ↦ unfold turn in rw single (popped s.redis.queue refl)
]
  where
    popped : (q : List Ticket) → s.redis.queue ≡ q → total g (pop now max_wait q s) ≡ total g s
    popped [] e = refl
    popped (t ∷ rest) e = total-examine g now max_wait t rest s e

pub total-scan :
    (n : ℕ) (g : Uuid) (now max_wait : ℤ) (s : Scan) → total g (scan n now max_wait s) ≡ total g s
unfolding scan
total-scan zero g now max_wait s = refl
total-scan (suc n) g now max_wait s =
    total-scan n g now max_wait (turn now max_wait s) ∙ total-turn g now max_wait s

abbrev pub count_reserved : Uuid → Option MatchReservation → ℕ
count_reserved g none = 0
count_reserved g (some m) = one (m.a == g) + one (m.b == g)

-- Where a guest may be in the end.
abbrev pub outcome : Uuid → MatchAttempt × Redis → ℕ
outcome g (attempt, r) =
    count g r.queue + (count_removed g attempt.discarded + count_reserved g attempt.reservation)

returned :
    (g : Uuid) (ts q : List Ticket) (n : ℕ)
    → ((x : Uuid) → count x ts + count x q ≤ 1)
    → count g (put_back ts q) + (n + 0) ≡ count g q + (count g ts + n)
returned g ts q n h = ground (arith, count-put_back g ts q h)

-- The candidates are reserved, or go back.
outcome-conclude :
    (g : Uuid) (request : MatchRequest) (cs : List Ticket) (s : Scan)
    → ((x : Uuid) → count x s.redis.queue + (count x cs + count_removed x s.discarded) ≤ 1)
    → outcome g (conclude request cs s)
      ≡ count g s.redis.queue + (count g cs + count_removed g s.discarded)
unfolding conclude
outcome-conclude g request [] s h = returned g [] s.redis.queue _ (λ x. ground (arith, h x))
outcome-conclude g request (t ∷ []) s h =
    returned g (t ∷ []) s.redis.queue _ (λ x. ground (arith, h x))
outcome-conclude g request (a ∷ b ∷ []) s h =
    let apart : (a.guest == b.guest) ≡ false = ground (arith, h a.guest) in
    unfold reservation_of reserve in ground (arith, apart)
outcome-conclude g request (a ∷ b ∷ c ∷ ts) s h =
    returned g (a ∷ b ∷ c ∷ ts) s.redis.queue _ (λ x. ground (arith, h x))

abbrev pub attempt_of : Result MatchmakingError MatchAttempt × Redis → MatchAttempt × Redis
attempt_of (ok attempt, r) = (attempt, r)
attempt_of (err e, r) = (record { discarded = []; reservation = none }, r)

-- If nobody stands in the queue twice, an attempt to match loses nobody and serves nobody
-- twice: as often as a guest stood in the queue before it, the guest is afterwards in the
-- queue, discarded or reserved.
pub count-try_match :
    (g : Uuid) (request : MatchRequest) (r : Redis)
    → IsUnique r.queue
    → outcome g (attempt_of (try_match request r)) ≡ count g r.queue
unfolding try_match
count-try_match g request r h = sought (r.reservations request.match_id) refl
  where
    s : Scan
    s = scan request.max_scan request.now request.max_wait (opening r)

    at_once : (x : Uuid) → total x s ≡ count x r.queue
    at_once x =
        ground (arith, total-scan request.max_scan x request.now request.max_wait (opening r))

    sought :
        (o : Option MatchReservation)
        → r.reservations request.match_id ≡ o
        → outcome g (attempt_of (try_match request r)) ≡ count g r.queue
    sought (some m) e = ground (arith, e)
    sought none e = ground (
      arith,
      e,
      at_once g,
      outcome-conclude g request s.candidates s (λ x. ground (arith, at_once x, h x)),
    )
