-- ===== src/Matchmaking/Returning.antt =====
-- A rollback and a sweep keep the guests apart: rollback.lua and sweep.lua.
use clu_chess.Base.{
  ap, ℕ, ◌≡◌, refl, sym, ◌∙◌, ◌⊎◌, inl, inr, ◌==◌, true, false, Option, none, some, List, [], ◌∷◌,
  arith, Bool-cases, Option-cases,
}
use clu_chess.Base.Number.{ℤ, leb_ℤ, ◌-ℤ◌}
use clu_chess.Store.Rows.{Uuid}
use clu_chess.Allocation.Queries.{GuestMatchEligibility}
use clu_chess.Matchmaking.Exclusive.{IsExclusive, removed-IsExclusive, count-zadd_other}
use clu_chess.Matchmaking.Matching.{asked}
use clu_chess.Matchmaking.Redis.{
  Ticket, idle, queued, MatchReservation, Redis, is_state, put, zrem, prune_presence,
}
use clu_chess.Matchmaking.Settling.{
  rollback, restore, requeue, retire, enter_game, drop_reservation, same_reservation,
}
use clu_chess.Matchmaking.Sweeping.{Swept, sweep, sweep_tickets, sweep_ticket, expel, take}
use clu_chess.Matchmaking.Tickets.{
  count, IsUnique, zadd-IsUnique, zrem-IsUnique, count-zrem_self, count-zrem_other,
}

-- One guest changes places, and waits only in the state QUEUED.
record IsMoved (guest : Uuid) (r after : Redis) : Type 0 where
  pub unique : IsUnique after.queue
  pub others : (g : Uuid) → (guest == g) ≡ false → count g after.queue ≡ count g r.queue
  pub states : (g : Uuid) → (guest == g) ≡ false → after.states g ≡ r.states g
  pub waiting : count guest after.queue ≡ 1 → is_state queued (after.states guest) ≡ true
  pub reservations : after.reservations ≡ r.reservations

requeue-IsMoved :
    (guest : Uuid) (score : ℤ) (r : Redis)
    → IsUnique r.queue
    → IsMoved guest r (requeue guest score r)
unfolding requeue put
requeue-IsMoved guest score r u =
    let t : Ticket = record { guest = guest; score = score } in
    record {
      unique = λ g. ground (arith, u g, zadd-IsUnique t r.queue u g);
      others = λ g h. ground (arith, h, count-zadd_other g t r.queue h);
      states = λ g h. ground (arith, h);
      waiting = λ h. ground arith;
      reservations = refl;
    }

retire-IsMoved : (guest : Uuid) (r : Redis) → IsUnique r.queue → IsMoved guest r (retire guest r)
unfolding retire put
retire-IsMoved guest r u = record {
  unique = zrem-IsUnique guest r.queue u;
  others = λ g h. count-zrem_other g guest r.queue h;
  states = λ g h. ground (arith, h);
  waiting = λ h. ground (arith, h, count-zrem_self guest r.queue);
  reservations = refl;
}

placed-IsMoved :
    (guest game_id : Uuid) (r : Redis)
    → IsUnique r.queue
    → IsMoved guest r (
        enter_game game_id guest
          (record r { queue = zrem guest r.queue; guards = put guest false r.guards }))
unfolding enter_game put
placed-IsMoved guest game_id r u = record {
  unique = zrem-IsUnique guest r.queue u;
  others = λ g h. count-zrem_other g guest r.queue h;
  states = λ g h. ground (arith, h);
  waiting = λ h. ground (arith, h, count-zrem_self guest r.queue);
  reservations = refl;
}

-- Where the columns that matter are the same.
near-IsMoved :
    (guest : Uuid) (r near after : Redis)
    → near.queue ≡ r.queue
    → near.states ≡ r.states
    → near.reservations ≡ r.reservations
    → IsMoved guest near after
    → IsMoved guest r after
near-IsMoved guest r near after q s m h = record {
  unique = h.unique;
  others = λ g e. rw (sym q) (h.others g e);
  states = λ g e. rw (sym s) (h.states g e);
  waiting = h.waiting;
  reservations = h.reservations ∙ m;
}

module _ (now : ℤ) (guest : Uuid) (score : ℤ) (durable : GuestMatchEligibility) (r : Redis) where
  freed : Redis
  freed = record r { active = put guest none r.active }

  restore_placed :
      (game_id : Uuid)
      → durable.active_game_id ≡ some game_id
      → (restore now guest score durable r).1
        ≡ enter_game game_id guest
            (record r { queue = zrem guest r.queue; guards = put guest false r.guards })
  unfolding restore
  restore_placed game_id h = ground (arith, h)

  restore_cases :
      durable.active_game_id ≡ none
      → let after = (restore now guest score durable r).1 in
        (after ≡ retire guest freed)
        ⊎ ((after ≡ requeue guest score (prune_presence now guest freed))
            ⊎ (after ≡ retire guest (prune_presence now guest freed)))
  unfolding restore freed
  restore_cases h = ground (arith, h)

  restore-IsMoved : IsUnique r.queue → IsMoved guest r (restore now guest score durable r).1
  unfolding freed prune_presence
  restore-IsMoved u = elim (Option-cases durable.active_game_id) [
    | inr (game_id, h) ↦ rw (restore_placed game_id h) (placed-IsMoved guest game_id r u)
    | inl h ↦ elim (restore_cases h) [
      | inl e ↦ rw e (near-IsMoved guest r freed _ refl refl refl (retire-IsMoved guest freed u))
      | inr (inl e) ↦ rw e (
          near-IsMoved guest r (prune_presence now guest freed) _ refl refl refl
            (requeue-IsMoved guest score (prune_presence now guest freed) u))
      | inr (inr e) ↦ rw e (
          near-IsMoved guest r (prune_presence now guest freed) _ refl refl refl
            (retire-IsMoved guest (prune_presence now guest freed) u))
    ]
  ]

module _ (given : MatchReservation) (a b : GuestMatchEligibility) (now : ℤ) (r : Redis) where
  first : Redis
  first = (restore now given.a given.a_score a r).1

  second : Redis
  unfolding first
  second = (restore now given.b given.b_score b first).1

  rollback_cases :
      (o : Option MatchReservation)
      → r.reservations given.match_id ≡ o
      → let after = (rollback given a b now r).1 in
        (after ≡ r)
        ⊎ ((stored : MatchReservation) × (r.reservations given.match_id ≡ some stored)
            × (same_reservation stored given ≡ true)
            × (after ≡ drop_reservation given.match_id second))
  unfolding rollback first second
  rollback_cases none e = inl (ground (arith, e))
  rollback_cases (some stored) e = elim (Bool-cases (same_reservation stored given)) [
    | inl same ↦ inr (stored, e, same, ground (arith, e, same))
    | inr other ↦ inl (ground (arith, e, other))
  ]

  back-IsExclusive :
      (stored : MatchReservation)
      → r.reservations given.match_id ≡ some stored
      → same_reservation stored given ≡ true
      → IsExclusive r
      → IsExclusive (drop_reservation given.match_id second)
  unfolding drop_reservation put
  back-IsExclusive stored h same v =
      let step_a : IsMoved given.a r first =
        unfold first in restore-IsMoved now given.a given.a_score a r v.unique in
      let step_b : IsMoved given.b first second =
        unfold second in restore-IsMoved now given.b given.b_score b first step_a.unique in
      let same_all : (id : Uuid) → second.reservations id ≡ r.reservations id =
        λ id. ap (λ f. f id) (step_b.reservations ∙ step_a.reservations) in
      record {
        unique = step_b.unique;
        waiting = λ g k. ground (
          arith,
          k,
          step_a.waiting,
          step_b.waiting,
          step_a.others g,
          step_b.others g,
          step_a.states g,
          step_b.states g,
          v.waiting g,
        );
        held = λ id g m k n. ground (
          arith,
          k,
          n,
          same_all id,
          v.held id g m,
          v.apart id given.match_id g m stored,
          h,
          same,
          step_a.states g,
          step_b.states g,
        );
        apart = λ id other g m m' k k' n n'.
            ground (arith, k, k', n, n', same_all id, same_all other, v.apart id other g m m');
      }

pub rollback-IsExclusive :
    (given : MatchReservation) (a b : GuestMatchEligibility) (now : ℤ) (r : Redis)
    → IsExclusive r
    → IsExclusive (rollback given a b now r).1
rollback-IsExclusive given a b now r v =
    elim (rollback_cases given a b now r (r.reservations given.match_id) refl) [
      | inl same ↦ rw same v
      | inr (stored, h, same, e) ↦ rw e (back-IsExclusive given a b now r stored h same v)
    ]

asked_same :
    (now max_wait : ℤ) (t : Ticket) (r : Redis)
    → IsExclusive r
    → IsExclusive (asked now max_wait t r)
unfolding asked prune_presence
asked_same now max_wait t r v = elim (Bool-cases (leb_ℤ t.score (now -ℤ max_wait))) [
  | inl late ↦ rw late v
  | inr early ↦
      rw early (record { unique = v.unique; waiting = v.waiting; held = v.held; apart = v.apart })
]

sweep_cases :
    (now max_wait : ℤ) (t : Ticket) (swept : Swept)
    → let after = (sweep_ticket now max_wait t swept).1 in
      let r = asked now max_wait t swept.1 in (after ≡ r) ⊎ (after ≡ expel t.guest r)
unfolding sweep_ticket
sweep_cases now max_wait t (removed, r) = ground arith

sweep_ticket-IsExclusive :
    (now max_wait : ℤ) (t : Ticket) (swept : Swept)
    → IsExclusive swept.1
    → IsExclusive (sweep_ticket now max_wait t swept).1
unfolding expel
sweep_ticket-IsExclusive now max_wait t swept v =
    let r = asked now max_wait t swept.1 in
    elim (sweep_cases now max_wait t swept) [
      | inl e ↦ rw e (asked_same now max_wait t swept.1 v)
      | inr e ↦ rw e (
          removed-IsExclusive t.guest (some idle) r _ refl refl refl
            (asked_same now max_wait t swept.1 v))
    ]

sweep_tickets-IsExclusive :
    (now max_wait : ℤ) (ts : List Ticket) (swept : Swept)
    → IsExclusive swept.1
    → IsExclusive (sweep_tickets now max_wait ts swept).1
unfolding sweep_tickets
sweep_tickets-IsExclusive now max_wait [] swept v = v
sweep_tickets-IsExclusive now max_wait (t ∷ ts) swept v =
    sweep_tickets-IsExclusive now max_wait ts (sweep_ticket now max_wait t swept)
      (sweep_ticket-IsExclusive now max_wait t swept v)

pub sweep-IsExclusive :
    (now max_wait : ℤ) (batch : ℕ) (r : Redis)
    → IsExclusive r
    → IsExclusive (sweep now max_wait batch r).1
unfolding sweep
sweep-IsExclusive now max_wait batch r v =
    sweep_tickets-IsExclusive now max_wait (take batch r.queue) ([], r) v
