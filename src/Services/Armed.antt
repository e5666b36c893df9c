-- ===== src/Services/Armed.antt =====
-- The steps of game-deadline.service.ts keep the map of timers and the pending timeouts together.
use clu_chess.Base.{
  ℕ, ◌+◌, ◌<◌, ◌≤◌, ◌≡◌, refl, ◌==◌, true, Option, none, some, arith, Option-cases, Bool-cases, inl,
  inr,
}
use clu_chess.Base.Number.{ℤ}
use clu_chess.Store.Rows.{Uuid}
use clu_chess.Matchmaking.Redis.{put}
use clu_chess.Services.Deadlines.{
  timer_delay, Timeout, Deadlines, drop_timer, clear_timer, bump_generation, cancel, put_waiting,
  schedule_game, set_timer, resume_call, resume, elapse_timeout, elapse,
}

abbrev pub game_of : Option Timeout → Option Uuid
game_of none = none
game_of (some t) = some t.game_id

-- The pending timeouts and the service's map of timers agree, a pending timeout has its game's
-- generation, and a call that waits with its game's generation has no timer.
pub record IsArmed (s : Deadlines) : Type 0 where
  pub pending :
      (h : ℕ) (t : Timeout)
      → s.timeouts h ≡ some t
      → (s.timers t.game_id ≡ some h)
        × (t.generation ≡ s.generations t.game_id)
        × (h < s.next_handle)
  pub stored : (id : Uuid) (h : ℕ) → s.timers id ≡ some h → game_of (s.timeouts h) ≡ some id
  pub called : (id : Uuid) (g : ℕ) (d : ℤ) → s.waiting id g ≡ some d → g ≤ s.generations id
  pub unarmed : (id : Uuid) (d : ℤ) → s.waiting id (s.generations id) ≡ some d → s.timers id ≡ none

-- A new generation without a timer.
abbrev pub renewed : Uuid → Deadlines → Deadlines
renewed id s = clear_timer id (bump_generation id s)

drop_timer-IsArmed :
    (id : Uuid) (s : Deadlines) (k : Option ℕ)
    → s.timers id ≡ k
    → IsArmed s
    → IsArmed (drop_timer id k (bump_generation id s))
unfolding put
drop_timer-IsArmed id s none e v = record {
  pending = λ h t f. ground (arith, v.pending h t f);
  stored = λ i h f. v.stored i h f;
  called = λ i g d f. ground (arith, v.called i g d f);
  unarmed = λ i d f. ground (arith, v.unarmed i d, v.called i _ d f);
}
drop_timer-IsArmed id s (some k) e v = record {
  pending = λ h t f. ground (arith, v.pending h t, v.stored id k e);
  stored = λ i h f. ground (arith, v.stored i h, v.stored id k e);
  called = λ i g d f. ground (arith, v.called i g d f);
  unarmed = λ i d f. ground (arith, v.unarmed i d, v.called i _ d f);
}

clear_timer-IsArmed : (id : Uuid) (s : Deadlines) → IsArmed s → IsArmed (renewed id s)
unfolding clear_timer
clear_timer-IsArmed id s v = drop_timer-IsArmed id s (s.timers id) refl v

pub cancel-IsArmed : (id : Uuid) (s : Deadlines) → IsArmed s → IsArmed (cancel id s)
unfolding cancel
cancel-IsArmed id s v = clear_timer-IsArmed id s v

renewed_lem :
    (id : Uuid) (s : Deadlines)
    → ((renewed id s).timers id ≡ none) × ((renewed id s).generations id ≡ s.generations id + 1)
unfolding clear_timer put
renewed_lem id s = elim (Option-cases (s.timers id)) [
  | inl e ↦ ground (arith, e)
  | inr (h, e) ↦ ground (arith, e)
]

put_waiting-IsArmed :
    (id : Uuid) (g : ℕ) (d : ℤ) (s : Deadlines)
    → s.timers id ≡ none
    → s.generations id ≡ g
    → IsArmed s
    → IsArmed (put_waiting id g (some d) s)
unfolding put
put_waiting-IsArmed id g d s off now v = record {
  pending = v.pending;
  stored = v.stored;
  called = λ i g' d' f. ground (arith, v.called i g' d');
  unarmed = λ i d' f. ground (arith, v.unarmed i d');
}

pub schedule_game-IsArmed :
    (id : Uuid) (d : ℤ) (s : Deadlines) → IsArmed s → IsArmed (schedule_game id d s)
unfolding schedule_game
schedule_game-IsArmed id d s v =
    put_waiting-IsArmed id (s.generations id + 1) d (renewed id s) (renewed_lem id s).0
      (renewed_lem id s).1 (clear_timer-IsArmed id s v)

-- The handles of the map are old.
stored_old :
    (s : Deadlines) (i : Uuid) (h : ℕ) → IsArmed s → s.timers i ≡ some h → h < s.next_handle
stored_old s i h v f = elim (Option-cases (s.timeouts h)) [
  | inl none_there ↦ ground (arith, v.stored i h f)
  | inr (t, there) ↦ (v.pending h t there).2
]

-- A call of the present generation sets the game's only timer.
arm-IsArmed :
    (g : ℕ) (d : ℤ) (t : Timeout) (s : Deadlines)
    → s.waiting t.game_id g ≡ some d
    → s.generations t.game_id ≡ g
    → t.generation ≡ g
    → IsArmed s
    → IsArmed (set_timer t (put_waiting t.game_id g none s))
unfolding put
arm-IsArmed g d t s f now n v =
    let off : s.timers t.game_id ≡ none = v.unarmed t.game_id d (rw now f) in
    record {
      pending = λ h x p. ground (arith, v.pending h x, off);
      stored = λ i h p. ground (arith, v.stored i h, stored_old s i h v);
      called = λ i g' d' p. ground (arith, v.called i g' d');
      unarmed = λ i d' p. ground (arith, v.unarmed i d');
    }

-- A call is over.
drop_waiting-IsArmed :
    (id : Uuid) (g : ℕ) (s : Deadlines) → IsArmed s → IsArmed (put_waiting id g none s)
unfolding put
drop_waiting-IsArmed id g s v = record {
  pending = v.pending;
  stored = v.stored;
  called = λ i g' d f. ground (arith, v.called i g' d);
  unarmed = λ i d f. ground (arith, v.unarmed i d);
}

pub resume-IsArmed :
    (id : Uuid) (g : ℕ) (answer : Option ℤ) (now : ℤ) (s : Deadlines)
    → IsArmed s
    → IsArmed (resume id g answer now s)
unfolding resume
resume-IsArmed id g answer now s v = go (s.waiting id g) refl answer
  where
    go :
        (call : Option ℤ)
        → s.waiting id g ≡ call
        → (answer : Option ℤ) → IsArmed (resume_call id g call answer now s)
    go none e answer = v
    go (some d) e none = drop_waiting-IsArmed id g s v
    go (some d) e (some deadline) = elim (Bool-cases (s.generations id == g)) [
      | inl same ↦ rw same (
          arm-IsArmed g d
            (record { delay = timer_delay d deadline now; game_id = id; generation = g }) s e
            (ground arith) refl v)
      | inr other ↦ rw other (drop_waiting-IsArmed id g s v)
    ]

-- A timeout that elapses has its game's generation.
elapse_timeout-IsArmed :
    (h : ℕ) (t : Timeout) (s : Deadlines)
    → s.timeouts h ≡ some t
    → IsArmed s
    → IsArmed (elapse_timeout h (some t) s)
elapse_timeout-IsArmed h t s e v =
    let own = v.pending h t e in
    let current : (s.generations t.game_id == t.generation) ≡ true = ground (arith, own) in
    rw current (
      unfold put in
      record {
        pending = λ h' x p. ground (arith, v.pending h' x, own);
        stored = λ i h' p. ground (arith, v.stored i h', own, e);
        called = v.called;
        unarmed = λ i d p. ground (arith, v.unarmed i d);
      })

pub elapse-IsArmed : (h : ℕ) (s : Deadlines) → IsArmed s → IsArmed (elapse h s)
unfolding elapse
elapse-IsArmed h s v = go (s.timeouts h) refl
  where
    go : (o : Option Timeout) → s.timeouts h ≡ o → IsArmed (elapse_timeout h o s)
    go none e = v
    go (some t) e = elapse_timeout-IsArmed h t s e v
