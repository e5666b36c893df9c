-- ===== src/Services/Effect.antt =====
-- What `adjudicateGame` of game-lifecycle.service.ts leaves.
use clu_chess.Base.{
  ◌≡◌, refl, ◌∙◌, Bool, true, false, Bool-cases, any, ◌⊎◌, inl, inr, some, none, List, Option-cases,
  Result, ok, err, arith, map, Option, ap,
}
use clu_chess.Base.Number.{ℤ}
use clu_chess.Game.{GameDomainError, eq_status}
use clu_chess.Game.Terminal.{
  TerminalOutcome, timed_out, joined_only, absence, derive_terminal_outcome,
}
use clu_chess.Store.Loading.{PersistedGame, load_game}
use clu_chess.Store.LockedClock.{locked_clock}
use clu_chess.Store.Rows.{Uuid, TerminalSubmission, Database}
use clu_chess.Store.Tx.{or_throw, ◌>>=◌, settle, DatabaseErrorKind}
use clu_chess.Lifecycle.Adjudication.{locked_fields}
use clu_chess.Lifecycle.Ending.{
  adjudicate_no_show, no_show_in_transaction, joined_colors, adjudicate_timeout,
  timeout_in_transaction, adjudicate_abandonment, abandonment_in_transaction, absent_players,
  includes,
}
use clu_chess.Lifecycle.Finalize.{finalize_terminal}
use clu_chess.Lifecycle.Replay.{finalize_terminal_throws}
use clu_chess.Lifecycle.Settlement.{
  lock_game_clock-none, lock_game_clock_lem, finalize_terminal_lem,
}
use clu_chess.Services.Absentees.{IsGrace, IsAbsentees, absentees, find_grace_state-IsGrace}
use clu_chess.Services.Adjudication.{
  Adjudicated, adjudicate_game, after_grace, absent_of, find_grace_state, unless_ended, GraceState,
  abandon_absent,
}

-- The tables are as before, or a submission has been answered.
abbrev Answers : Database → Adjudicated → Type 0
Answers db r = (r.1 ≡ db) ⊎ ((s : TerminalSubmission) × (r.0 ≡ ok (some s)))

-- The derived outcome and the terminal update with it.
abbrev judgement :
    PersistedGame → ℤ → Result GameDomainError TerminalOutcome → Database → Adjudicated
judgement game now r db =
    settle db ((or_throw r >>= finalize_terminal game (locked_clock game.game now)) db)

judgement-Answers :
    (id : Uuid) (db : Database) (game : PersistedGame) (now : ℤ)
    (r : Result GameDomainError TerminalOutcome)
    → load_game id db ≡ some game
    → Answers db (judgement game now r db)
judgement-Answers id db game now (err e) h = inl refl
judgement-Answers id db game now (ok o) h =
    elim (finalize_terminal_throws game (locked_clock game.game now) o db) [
      | inl (p, q, e) ↦ inr (
        _,
        ap (λ f. (settle db f).0)
            (finalize_terminal_lem id db game p q (locked_clock game.game now) o h e),
      )
      | inr t ↦ inl (rw t refl)
    ]

-- An adjudication that leaves the tables, or judges an event.
answers :
    (id : Uuid) (db : Database) (game : PersistedGame) (now : ℤ)
    (r : Result GameDomainError TerminalOutcome) (a : Adjudicated)
    → load_game id db ≡ some game
    → (a.1 ≡ db) ⊎ (a ≡ judgement game now r db)
    → Answers db a
answers id db game now r a h (inl same) = inl same
answers id db game now r a h (inr e) = rw e (judgement-Answers id db game now r h)

no_show-Answers : (now : ℤ) (id : Uuid) (db : Database) → Answers db (adjudicate_no_show now id db)
unfolding adjudicate_no_show no_show_in_transaction eq_status
no_show-Answers now id db = elim (Option-cases (load_game id db)) [
  | inl missing ↦ inl (ground (arith, lock_game_clock-none id db now missing))
  | inr (game, h) ↦
      answers id db game now (derive_terminal_outcome (joined_only (joined_colors game.players))) _
        h (ground (arith, lock_game_clock_lem id db game now h, locked_fields game.game now))
]

timeout-Answers : (now : ℤ) (id : Uuid) (db : Database) → Answers db (adjudicate_timeout now id db)
unfolding adjudicate_timeout timeout_in_transaction
timeout-Answers now id db = elim (Option-cases (load_game id db)) [
  | inl missing ↦ inl (ground (arith, lock_game_clock-none id db now missing))
  | inr (game, h) ↦
      answers id db game now (derive_terminal_outcome (timed_out game.game.turn_color)) _ h
        (ground (arith, lock_game_clock_lem id db game now h, locked_fields game.game now))
]

abandonment-Answers :
    (now : ℤ) (id : Uuid) (absent : List Uuid) (db : Database)
    → Answers db (adjudicate_abandonment now id absent db)
unfolding adjudicate_abandonment abandonment_in_transaction eq_status
abandonment-Answers now id absent db = elim (Option-cases (load_game id db)) [
  | inl missing ↦ inl (ground (arith, lock_game_clock-none id db now missing))
  | inr (game, h) ↦
      answers id db game now
        (derive_terminal_outcome
          (absence (map (λ p. p.color) (absent_players absent game.players))))
        _ h (ground (arith, lock_game_clock_lem id db game now h, locked_fields game.game now))
]

abbrev pub is_submitted : Result DatabaseErrorKind (Option TerminalSubmission) → Bool
is_submitted (ok (some _)) = true
is_submitted (ok none) = false
is_submitted (err _) = false

-- The whole call against its parts: nothing happened, or one of the three adjudications did.
abbrev pub IsSingle : ℤ → ℤ → ℤ → ℤ → (Uuid → Option Bool) → Uuid → Database → Adjudicated → Type 0
IsSingle t1 t2 t3 t4 present id db r =
    ((r.1 ≡ db) × (is_submitted r.0 ≡ false))
    ⊎ ((r ≡ adjudicate_no_show t1 id db)
        ⊎ ((r ≡ adjudicate_timeout t2 id db)
            ⊎ ((grace : GraceState) × (absent : List Uuid) × IsGrace t3 id db grace
                × IsAbsentees present grace absent
                × (r ≡ adjudicate_abandonment t4 id absent db))))

-- After the two statements that leave the tables.
after_grace_cases :
    (t1 t2 t3 t4 : ℤ) (id : Uuid) (present : Uuid → Option Bool) (db : Database)
    (grace : Result DatabaseErrorKind (Option GraceState))
    → find_grace_state t3 id db ≡ grace
    → IsSingle t1 t2 t3 t4 present id db (after_grace t4 id present db grace)
after_grace_cases t1 t2 t3 t4 id present db (err e) found = inl (refl, refl)
after_grace_cases t1 t2 t3 t4 id present db (ok none) found = inl (refl, refl)
after_grace_cases t1 t2 t3 t4 id present db (ok (some grace)) found =
    step (absent_of present grace.guest_session_ids) refl
  where
    step :
        (absent : Option (List Uuid))
        → absent_of present grace.guest_session_ids ≡ absent
        → IsSingle t1 t2 t3 t4 present id db (abandon_absent t4 id grace absent db)
    step none e = inl (refl, refl)
    step (some absent) e = elim (Bool-cases (any (includes absent) grace.due_guest_session_ids)) [
      | inl due ↦ inr (
          inr (
            inr (
              grace,
              absent,
              find_grace_state-IsGrace t3 id db grace found,
              absentees present grace absent e due,
              rw due refl,
            )))
      | inr not_due ↦ inl (rw not_due (refl, refl))
    ]

-- A call that leaves the tables unless it answers ends the whole, or leaves it to the rest.
unless_ended_cases :
    (db : Database) (a : Adjudicated) (rest : Database → Adjudicated)
    → Answers db a
    → (unless_ended a rest ≡ a) ⊎ (unless_ended a rest ≡ rest db)
unless_ended_cases db (ok none, after) rest (inl same) = inr (ap rest same)
unless_ended_cases db (ok none, after) rest (inr (s, e)) = ground arith
unless_ended_cases db (ok (some s), after) rest h = inl refl
unless_ended_cases db (err e, after) rest h = inl refl

abbrev last : ℤ → ℤ → (Uuid → Option Bool) → Uuid → Database → Adjudicated
last t3 t4 present id db = after_grace t4 id present db (find_grace_state t3 id db)

-- With any times that its statements observe, and any guests present, the adjudication of a
-- game leaves the tables as they were and answers no submission, or its answer and its tables
-- are those of one of three adjudications on the tables before the call: the no-show at the
-- first time, the timeout at the second, or the abandonment at the last time. The abandonment
-- names exactly those of the two guests of the game that are not present, the game is
-- RECONNECTING, and one of the named guests has a grace that is over at the third time.
pub adjudicate_game_cases :
    (t1 t2 t3 t4 : ℤ) (present : Uuid → Option Bool) (id : Uuid) (db : Database)
    → IsSingle t1 t2 t3 t4 present id db (adjudicate_game t1 t2 t3 t4 present id db)
unfolding adjudicate_game
adjudicate_game_cases t1 t2 t3 t4 present id db =
    elim (unless_ended_cases db (adjudicate_no_show t1 id db)
      (λ d. unless_ended (adjudicate_timeout t2 id d) (last t3 t4 present id))
      (no_show-Answers t1 id db)) [
        | inl e ↦ inr (inl e)
        | inr e ↦
            elim (unless_ended_cases db (adjudicate_timeout t2 id db) (last t3 t4 present id)
              (timeout-Answers t2 id db)) [
                | inl e' ↦ inr (inr (inl (e ∙ e')))
                | inr e' ↦
                    rw (e ∙ e')
                      (after_grace_cases t1 t2 t3 t4 id present db (find_grace_state t3 id db) refl)
              ]
      ]
