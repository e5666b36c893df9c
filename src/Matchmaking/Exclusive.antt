-- ===== src/Matchmaking/Exclusive.antt =====
-- A guest waits, or is reserved once (the scripts in src/modules/matchmaking/infrastructure/lua).
use clu_chess.Base.{
  ◌≡◌, refl, ◌⊎◌, inl, inr, ◌==◌, Bool, true, false, ◌||◌, Option, some, List, arith,
}
use clu_chess.Base.Number.{ℤ}
use clu_chess.Store.Rows.{Uuid}
use clu_chess.Matchmaking.Queue.{
  enqueue, enqueue_script, mark_queued, add_ticket, leave, is_taken, if_queued,
}
use clu_chess.Matchmaking.Redis.{
  Ticket, UserState, idle, in_game, queued, reserved, MatchReservation, Redis, is_state, put, zadd,
  zrem,
}
use clu_chess.Matchmaking.Tickets.{
  count, IsUnique, zadd-IsUnique, zrem-IsUnique, count-zrem_self, count-zrem_other, count-insert,
}

abbrev pub is_held : Option UserState → Bool
is_held state = is_state reserved state || is_state in_game state

abbrev pub is_member : Uuid → MatchReservation → Bool
is_member g m = (m.a == g) || (m.b == g)

pub record IsExclusive (r : Redis) : Type 0 where
  pub unique : IsUnique r.queue
  pub waiting : (g : Uuid) → count g r.queue ≡ 1 → is_state queued (r.states g) ≡ true
  pub held :
      (id g : Uuid) (m : MatchReservation)
      → r.reservations id ≡ some m
      → is_member g m ≡ true
      → is_held (r.states g) ≡ true
  pub apart :
      (id other g : Uuid) (m m' : MatchReservation)
      → r.reservations id ≡ some m
      → r.reservations other ≡ some m'
      → is_member g m ≡ true
      → is_member g m' ≡ true
      → id ≡ other

-- What it means: nobody waits who is reserved.
pub reserved_waits_not :
    (r : Redis) (id g : Uuid) (m : MatchReservation)
    → IsExclusive r
    → r.reservations id ≡ some m
    → is_member g m ≡ true
    → count g r.queue ≡ 0
reserved_waits_not r id g m v h k = ground (arith, v.unique g, v.waiting g, v.held id g m h k)

pub count-zadd_other :
    (g : Uuid) (t : Ticket) (q : List Ticket)
    → (t.guest == g) ≡ false
    → count g (zadd t q) ≡ count g q
unfolding zadd
count-zadd_other g t q h =
    ground (arith, count-insert g t (zrem t.guest q), count-zrem_other g t.guest q h)

-- Joining.
mark_queued-IsExclusive :
    (guest : Uuid) (r : Redis)
    → is_taken guest r ≡ false
    → IsExclusive r
    → IsExclusive (mark_queued guest r)
unfolding mark_queued put
mark_queued-IsExclusive guest r free v = record {
  unique = v.unique;
  waiting = λ g h. ground (arith, v.waiting g h);
  held = λ id g m h k. ground (arith, v.held id g m h k, free);
  apart = v.apart;
}

add_ticket-IsExclusive :
    (guest : Uuid) (now : ℤ) (r : Redis)
    → is_taken guest r ≡ false
    → IsExclusive r
    → IsExclusive (mark_queued guest (add_ticket guest now r))
unfolding mark_queued add_ticket put
add_ticket-IsExclusive guest now r free v =
    let t : Ticket = record { guest = guest; score = now } in
    record {
      unique = zadd-IsUnique t r.queue v.unique;
      waiting = λ g h. ground (arith, v.waiting g, count-zadd_other g t r.queue, h);
      held = λ id g m h k. ground (arith, v.held id g m h k, free);
      apart = v.apart;
    }

enqueue_cases :
    (guest : Uuid) (now : ℤ) (r : Redis)
    → let after = (enqueue guest now r).1 in
      (after ≡ r)
      ⊎ ((is_taken guest r ≡ false)
          × ((after ≡ mark_queued guest r) ⊎ (after ≡ mark_queued guest (add_ticket guest now r))))
unfolding enqueue enqueue_script
enqueue_cases guest now r = ground arith

pub enqueue-IsExclusive :
    (guest : Uuid) (now : ℤ) (r : Redis) → IsExclusive r → IsExclusive (enqueue guest now r).1
enqueue-IsExclusive guest now r v = elim (enqueue_cases guest now r) [
  | inl same ↦ rw same v
  | inr (free, inl known) ↦ rw known (mark_queued-IsExclusive guest r free v)
  | inr (free, inr new) ↦ rw new (add_ticket-IsExclusive guest now r free v)
]

-- Leaving, of one's own will or not.
pub removed-IsExclusive :
    (guest : Uuid) (state : Option UserState) (r after : Redis)
    → after.queue ≡ zrem guest r.queue
    → after.states ≡ put guest (if_queued (r.states guest) state) r.states
    → after.reservations ≡ r.reservations
    → IsExclusive r
    → IsExclusive after
unfolding put
removed-IsExclusive guest state r after q s m v = record {
  unique = rw q (zrem-IsUnique guest r.queue v.unique);
  waiting = λ g h. rw s (
      ground (
        arith,
        h,
        q,
        v.waiting g,
        count-zrem_self guest r.queue,
        count-zrem_other g guest r.queue,
      ));
  held = λ id g n h k. rw s (ground (arith, v.held id g n (rw m at h) k));
  apart = λ id other g n n' h h' k k'. v.apart id other g n n' (rw m at h) (rw m at h') k k';
}

pub leave-IsExclusive : (guest : Uuid) (r : Redis) → IsExclusive r → IsExclusive (leave guest r).1
unfolding leave
leave-IsExclusive guest r v = removed-IsExclusive guest (some idle) r _ refl refl refl v
