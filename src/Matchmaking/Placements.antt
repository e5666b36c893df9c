-- ===== src/Matchmaking/Placements.antt =====
-- Entering a game keeps the guests apart: finalize.lua and repair-committed.lua.
use clu_chess.Base.{◌≤◌, ◌≡◌, refl, ◌⊎◌, inl, inr, true, Option, none, some, arith, Bool-cases}
use clu_chess.Store.Rows.{Uuid}
use clu_chess.Matchmaking.Exclusive.{IsExclusive, is_held, reserved_waits_not}
use clu_chess.Matchmaking.Redis.{MatchReservation, Redis, put, zrem}
use clu_chess.Matchmaking.Settling.{
  finalize, repair_committed, enter_game, drop_guard, drop_reservation, same_reservation,
}
use clu_chess.Matchmaking.Tickets.{count, count-zrem_self, count-zrem_other}

-- Guests who do not wait are put into a game, and reservations may go.
record IsPlaced (r after : Redis) : Type 0 where
  pub states :
      (g : Uuid)
      → (after.states g ≡ r.states g)
        ⊎ ((count g after.queue ≡ 0) × (is_held (after.states g) ≡ true))
  pub queue : (g : Uuid) → count g after.queue ≤ count g r.queue
  pub reservations :
      (id : Uuid) → (after.reservations id ≡ r.reservations id) ⊎ (after.reservations id ≡ none)

placed-IsExclusive : (r after : Redis) → IsPlaced r after → IsExclusive r → IsExclusive after
placed-IsExclusive r after p v = record {
  unique = λ g. ground (arith, v.unique g, p.queue g);
  waiting = λ g h. ground (arith, h, p.states g, p.queue g, v.unique g, v.waiting g);
  held = λ id g m h k. ground (arith, h, p.reservations id, p.states g, v.held id g m, k);
  apart = λ id other g m m' h h' k k'.
      ground
        (arith, h, h', p.reservations id, p.reservations other, v.apart id other g m m', k, k');
}

finalized : MatchReservation → Redis → Redis
finalized given r = drop_guard given.b (
    drop_guard given.a (
      drop_reservation given.match_id
        (enter_game given.game_id given.b (enter_game given.game_id given.a r))))

finalize_cases :
    (given : MatchReservation) (r : Redis) (o : Option MatchReservation)
    → r.reservations given.match_id ≡ o
    → let after = (finalize given r).1 in
      (after ≡ r)
      ⊎ ((stored : MatchReservation) × (r.reservations given.match_id ≡ some stored)
          × (same_reservation stored given ≡ true)
          × (after ≡ finalized given r))
unfolding finalize finalized
finalize_cases given r none e = inl (ground (arith, e))
finalize_cases given r (some stored) e = elim (Bool-cases (same_reservation stored given)) [
  | inl same ↦ inr (stored, e, same, ground (arith, e, same))
  | inr other ↦ inl (ground (arith, e, other))
]

finalized-IsPlaced :
    (given stored : MatchReservation) (r : Redis)
    → r.reservations given.match_id ≡ some stored
    → same_reservation stored given ≡ true
    → IsExclusive r
    → IsPlaced r (finalized given r)
unfolding finalized drop_guard drop_reservation enter_game put
finalized-IsPlaced given stored r h same v = record {
  states = λ g. ground (arith, same, reserved_waits_not r given.match_id g stored v h);
  queue = λ g. ground arith;
  reservations = λ id. ground arith;
}

pub finalize-IsExclusive :
    (given : MatchReservation) (r : Redis) → IsExclusive r → IsExclusive (finalize given r).1
finalize-IsExclusive given r v =
    elim (finalize_cases given r (r.reservations given.match_id) refl) [
      | inl same ↦ rw same v
      | inr (stored, h, same, e) ↦
          rw e (placed-IsExclusive r _ (finalized-IsPlaced given stored r h same v) v)
    ]

repaired : Uuid → Uuid → Uuid → Redis → Redis
repaired game_id a b r = drop_guard b (
    drop_guard a
      (record (enter_game game_id b (enter_game game_id a r)) { queue = zrem b (zrem a r.queue) }))

repair_cases :
    (game_id a b : Uuid) (r : Redis)
    → let after = (repair_committed game_id a b r).1 in
      (after ≡ r) ⊎ (after ≡ repaired game_id a b r)
unfolding repair_committed repaired
repair_cases game_id a b r = ground arith

repaired-IsPlaced : (game_id a b : Uuid) (r : Redis) → IsPlaced r (repaired game_id a b r)
unfolding repaired drop_guard enter_game put
repaired-IsPlaced game_id a b r = record {
  states = λ g. ground (
    arith,
    count-zrem_self b (zrem a r.queue),
    count-zrem_other g b (zrem a r.queue),
    count-zrem_self a r.queue,
    count-zrem_other g a r.queue,
  );
  queue = λ g. ground (
    arith,
    count-zrem_self b (zrem a r.queue),
    count-zrem_other g b (zrem a r.queue),
    count-zrem_self a r.queue,
    count-zrem_other g a r.queue,
  );
  reservations = λ id. inl refl;
}

pub repair_committed-IsExclusive :
    (game_id a b : Uuid) (r : Redis)
    → IsExclusive r
    → IsExclusive (repair_committed game_id a b r).1
repair_committed-IsExclusive game_id a b r v = elim (repair_cases game_id a b r) [
  | inl same ↦ rw same v
  | inr e ↦ rw e (placed-IsExclusive r _ (repaired-IsPlaced game_id a b r) v)
]
