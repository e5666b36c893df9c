-- ===== src/Matchmaking/Reserving.antt =====
-- Seeking a pair keeps the guests apart: try-match.lua.
use mathlib.Core.Path.{subst}
use clu_chess.Base.{
  ℕ, zero, suc, ◌+◌, ◌≤◌, ◌≡◌, refl, ap, ◌∙◌, inl, inr, ◌==◌, true, false, Option, none, some, List,
  [], ◌∷◌, ◌++◌, arith, Bool-cases, ok, err, Result,
}
use clu_chess.Base.Number.{ℤ}
use clu_chess.Store.Rows.{Uuid}
use clu_chess.Matchmaking.Conservation.{asked_queue}
use clu_chess.Matchmaking.Exclusive.{IsExclusive, is_held}
use clu_chess.Matchmaking.Matching.{
  QueueExitReason, RemovedQueueGuest, Scan, MatchRequest, MatchAttempt, examine, turn, pop, scan,
  conclude, opening, try_match, asked, discard, reason_of, put_back, reserve, reservation_of,
  has_pair,
}
use clu_chess.Matchmaking.Queue.{MatchmakingError, failure, reservation_mismatch}
use clu_chess.Matchmaking.Redis.{
  Ticket, queued, MatchReservation, Redis, is_state, put, prune_presence,
}
use clu_chess.Matchmaking.Tickets.{count, count-++, count-put_back}

-- The loop so far: candidates and tickets belong to guests who are QUEUED, and nothing that is
-- held has changed.
record IsScanned (r : Redis) (s : Scan) : Type 0 where
  pub small : (g : Uuid) → count g s.redis.queue + count g s.candidates ≤ 1
  pub waiting :
      (g : Uuid)
      → count g s.redis.queue + count g s.candidates ≡ 1
      → is_state queued (s.redis.states g) ≡ true
  pub others : (g : Uuid) → is_held (r.states g) ≡ true → s.redis.states g ≡ r.states g
  pub reservations : s.redis.reservations ≡ r.reservations

asked_rest :
    (now max_wait : ℤ) (t : Ticket) (r : Redis)
    → ((asked now max_wait t r).states ≡ r.states)
      × ((asked now max_wait t r).reservations ≡ r.reservations)
unfolding asked prune_presence
asked_rest now max_wait t r = (ground arith, ground arith)

module _ (r : Redis) (now max_wait : ℤ) (t : Ticket) (rest : List Ticket) (s : Scan)
    (first : s.redis.queue ≡ t ∷ rest) (h : IsScanned r s) where
  popped : Redis
  popped = asked now max_wait t (record s.redis { queue = rest })

  popped_same :
      (popped.queue ≡ rest)
      × (popped.states ≡ s.redis.states)
      × (popped.reservations ≡ s.redis.reservations)
  unfolding popped
  popped_same =
      let before : Redis = record s.redis { queue = rest } in
      let (states, reservations) = asked_rest now max_wait t before in
      (asked_queue now max_wait t before, states, reservations)

  served-IsScanned : IsScanned r (record s { redis = popped; candidates = s.candidates ++ t ∷ [] })
  served-IsScanned =
      let (q, states, reservations) = popped_same in
      record {
        small = λ g. ground (arith, q, first, h.small g, count-++ g s.candidates (t ∷ []));
        waiting = λ g k.
            rw states (ground (arith, k, q, first, h.waiting g, count-++ g s.candidates (t ∷ [])));
        others = λ g k. rw states (h.others g k);
        reservations = reservations ∙ h.reservations;
      }

  discarded-IsScanned :
      (removed : List RemovedQueueGuest)
      → IsScanned r (record s { redis = discard t.guest popped; discarded = removed })
  unfolding discard put
  discarded-IsScanned removed =
      let (q, states, reservations) = popped_same in
      record {
        small = λ g. ground (arith, q, first, h.small g);
        waiting = λ g k. rw states (ground (arith, k, q, first, h.small g, h.waiting g));
        others = λ g k. rw states (ground (arith, h.others g k, k));
        reservations = reservations ∙ h.reservations;
      }

  examined :
      (o : Option QueueExitReason)
      → reason_of now max_wait t s.redis ≡ o
      → IsScanned r (examine now max_wait t rest s)
  unfolding examine popped
  examined none e = subst (IsScanned r) (ground (arith, e)) served-IsScanned
  examined (some reason) e =
      subst (IsScanned r) (ground (arith, e))
        (discarded-IsScanned (s.discarded ++ record { guest = t.guest; reason = reason } ∷ []))

turn-IsScanned :
    (r : Redis) (now max_wait : ℤ) (s : Scan) → IsScanned r s → IsScanned r (turn now max_wait s)
turn-IsScanned r now max_wait s h = elim (Bool-cases (has_pair s.candidates)) [
  | inl paired ↦ subst (IsScanned r) {x = s} (unfold turn in ground (arith, paired)) h
  | inr single ↦
      subst (IsScanned r) {x = pop now max_wait s.redis.queue s}
        (unfold turn in ground (arith, single)) (next_turn s.redis.queue refl)
]
  where
    next_turn : (q : List Ticket) → s.redis.queue ≡ q → IsScanned r (pop now max_wait q s)
    next_turn [] e = h
    next_turn (t ∷ rest) e =
        examined r now max_wait t rest s e h (reason_of now max_wait t s.redis) refl

scan-IsScanned :
    (n : ℕ) (r : Redis) (now max_wait : ℤ) (s : Scan)
    → IsScanned r s
    → IsScanned r (scan n now max_wait s)
unfolding scan
scan-IsScanned zero r now max_wait s h = h
scan-IsScanned (suc n) r now max_wait s h =
    scan-IsScanned n r now max_wait (turn now max_wait s) (turn-IsScanned r now max_wait s h)

opening-IsScanned : (r : Redis) → IsExclusive r → IsScanned r (opening r)
opening-IsScanned r v = record {
  small = λ g. ground (arith, v.unique g);
  waiting = λ g k. ground (arith, v.waiting g, k);
  others = λ g k. refl;
  reservations = refl;
}

-- Without a pair the candidates go back.
put_back-IsExclusive :
    (r : Redis) (s : Scan) (cs : List Ticket)
    → s.candidates ≡ cs
    → IsScanned r s
    → IsExclusive r
    → IsExclusive (record s.redis { queue = put_back cs s.redis.queue })
put_back-IsExclusive r s cs e h v =
    let counts : (g : Uuid)
        → count g (put_back cs s.redis.queue) ≡ count g cs + count g s.redis.queue =
      λ g. count-put_back g cs s.redis.queue (λ x. ground (arith, h.small x, e)) in
    let same : (id : Uuid) → s.redis.reservations id ≡ r.reservations id =
      λ id. ap (λ f. f id) h.reservations in
    record {
      unique = λ g. ground (arith, counts g, h.small g, e);
      waiting = λ g k. ground (arith, counts g, h.waiting g, e, k);
      held = λ id g m k n. ground (arith, same id, k, n, v.held id g m, h.others g);
      apart = λ id other g m m' k k' n n'.
          ground (arith, same id, same other, k, k', n, n', v.apart id other g m m');
    }

reserve-IsExclusive :
    (request : MatchRequest) (r : Redis) (s : Scan) (a b : Ticket)
    → s.candidates ≡ a ∷ b ∷ []
    → r.reservations request.match_id ≡ none
    → IsScanned r s
    → IsExclusive r
    → IsExclusive (reserve request a b s.redis)
unfolding reserve reservation_of put
reserve-IsExclusive request r s a b e new h v =
    let same : (id : Uuid) → s.redis.reservations id ≡ r.reservations id =
      λ id. ap (λ f. f id) h.reservations in
    record {
      unique = λ g. ground (arith, h.small g);
      waiting = λ g k. ground (arith, e, k, h.small g, h.waiting g);
      held = λ id g m k n. ground (arith, same id, k, n, v.held id g m, h.others g);
      apart = λ id other g m m' k k' n n'. ground (
        arith,
        e,
        same id,
        same other,
        k,
        k',
        n,
        n',
        v.apart id other g m m',
        v.held id g m,
        v.held other g m',
        h.others g,
        h.waiting g,
        h.small g,
      );
    }

conclude-IsExclusive :
    (request : MatchRequest) (r : Redis) (s : Scan) (cs : List Ticket)
    → s.candidates ≡ cs
    → r.reservations request.match_id ≡ none
    → IsScanned r s
    → IsExclusive r
    → IsExclusive (conclude request cs s).1
unfolding conclude
conclude-IsExclusive request r s [] e new h v = put_back-IsExclusive r s [] e h v
conclude-IsExclusive request r s (a ∷ []) e new h v = put_back-IsExclusive r s (a ∷ []) e h v
conclude-IsExclusive request r s (a ∷ b ∷ []) e new h v =
    let apart : (a.guest == b.guest) ≡ false = ground (arith, h.small a.guest, e) in
    rw apart (reserve-IsExclusive request r s a b e new h v)
conclude-IsExclusive request r s (a ∷ b ∷ c ∷ cs) e new h v =
    put_back-IsExclusive r s (a ∷ b ∷ c ∷ cs) e h v

pub try_match-IsExclusive :
    (request : MatchRequest) (r : Redis) → IsExclusive r → IsExclusive (try_match request r).1
unfolding try_match
try_match-IsExclusive request r v = sought (r.reservations request.match_id) refl
  where
    s : Scan
    s = scan request.max_scan request.now request.max_wait (opening r)

    result : Option MatchReservation → Result MatchmakingError MatchAttempt × Redis
    result (some _) = (err (failure reservation_mismatch false), r)
    result none = let (attempt, after) = conclude request s.candidates s in (ok attempt, after)

    sought :
        (o : Option MatchReservation)
        → r.reservations request.match_id ≡ o
        → IsExclusive (result o).1
    sought (some m) e = v
    sought none e =
        conclude-IsExclusive request r s s.candidates refl e
          (scan-IsScanned request.max_scan r request.now request.max_wait (opening r)
            (opening-IsScanned r v))
          v
