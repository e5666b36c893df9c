-- ===== src/Server/Endings.antt =====
-- What the operations that end a game leave: the tables as they were, or a game that has ended.
use clu_chess.Base.{
  ◌==◌, ap, false, true, Result, ok, err, none, List, Option-cases, map, ◌≡◌, refl, ◌⊎◌, inl, inr,
  some, arith,
}
use clu_chess.Base.Number.{ℤ}
use clu_chess.Game.{GameStatus, eq_status, GameDomainError}
use clu_chess.Game.StateMachine.Runs.{is_terminal}
use clu_chess.Game.Terminal.{
  TerminalEvent, timed_out, joined_only, absence, derive_terminal_outcome, TerminalOutcome,
}
use clu_chess.Store.Loading.{PersistedGame, load_game}
use clu_chess.Store.LockedClock.{LockedGameClock, is_live, locked_clock}
use clu_chess.Store.Rows.{GameRow, Uuid, Database}
use clu_chess.Store.Seats.{IsAllocated, end-IsAllocated, seats-update_where}
use clu_chess.Store.Soundness.{IsConsistent}
use clu_chess.Store.Tx.{or_throw, ◌>>=◌, settle}
use clu_chess.Lifecycle.Adjudication.{locked_fields}
use clu_chess.Lifecycle.Ending.{
  adjudicate_no_show, no_show_in_transaction, joined_colors, adjudicate_abandonment,
  abandonment_in_transaction, absent_players, adjudicate_timeout, timeout_in_transaction,
}
use clu_chess.Lifecycle.Finalize.{
  no_grace, game_status, release_players, terminal_row, finalize_terminal,
}
use clu_chess.Lifecycle.Replay.{finalize_terminal_throws}
use clu_chess.Lifecycle.Settlement.{
  load_game_self, lock_game_clock-none, lock_game_clock_lem, ended_tables,
  ended_tables-IsConsistent, finalize_terminal_lem,
}
use clu_chess.Server.Progress.{Proceeds, Updates, stays, Change, same_rows, updates}

-- The terminal update has been made, or has thrown.
finalize_cases :
    (id : Uuid) (db : Database) (game : PersistedGame) (now : ℤ) (o : TerminalOutcome)
    → load_game id db ≡ some game
    → (settle db (finalize_terminal game (locked_clock game.game now) o db)).1 ≡ db
      ⊎ ((settle db (finalize_terminal game (locked_clock game.game now) o db)).1
          ≡ ended_tables game (locked_clock game.game now) o db)
finalize_cases id db game now o h =
    elim (finalize_terminal_throws game (locked_clock game.game now) o db) [
      | inl (p, q, e) ↦
          inr (rw (finalize_terminal_lem id db game p q (locked_clock game.game now) o h e) refl)
      | inr t ↦ inl (rw t refl)
    ]

-- Consistent tables stay so.
finalize-IsConsistent :
    (id : Uuid) (db : Database) (game : PersistedGame) (now : ℤ) (o : TerminalOutcome)
    → load_game id db ≡ some game
    → IsConsistent db
    → IsConsistent (settle db (finalize_terminal game (locked_clock game.game now) o db)).1
finalize-IsConsistent id db game now o h v = elim (finalize_cases id db game now o h) [
  | inl e ↦ rw e v
  | inr e ↦ rw e (ended_tables-IsConsistent id db game now o h v)
]

-- The outcome of an event, and the terminal update with it.
unfoldable pub judged : PersistedGame → ℤ → TerminalEvent → Database → Database
judged game now e db =
    (settle db (
      (or_throw (derive_terminal_outcome e) >>= finalize_terminal game (locked_clock game.game now))
        db)).1

judge-IsConsistent :
    (id : Uuid) (db : Database) (game : PersistedGame) (now : ℤ)
    (r : Result GameDomainError TerminalOutcome)
    → load_game id db ≡ some game
    → IsConsistent db
    → IsConsistent
        (settle db ((or_throw r >>= finalize_terminal game (locked_clock game.game now)) db)).1
judge-IsConsistent id db game now (err e) h v = v
judge-IsConsistent id db game now (ok o) h v = finalize-IsConsistent id db game now o h v

terminal_row_ends :
    (locked : LockedGameClock) (o : TerminalOutcome) (g : GameRow)
    → is_terminal (terminal_row locked o g).status ≡ true
unfolding terminal_row game_status
terminal_row_ends locked o g = ground arith

-- The rows of the games after the terminal update.
pub ended-Updates :
    (id : Uuid) (db after : Database) (game : PersistedGame) (now : ℤ) (o : TerminalOutcome)
    → load_game id db ≡ some game
    → is_terminal game.game.status ≡ false
    → after.games ≡ (ended_tables game (locked_clock game.game now) o db).games
    → Updates db after
unfolding ended_tables release_players terminal_row
ended-Updates id db after game now o h open_end g = record {
  row = game.game;
  change = terminal_row (locked_clock game.game now) o;
  found = load_game_self id db game h;
  open_end = open_end;
  same_id = λ x. refl;
  later = ground arith;
  games = g;
}

-- The players stay where they are.
pub ended-IsAllocated :
    (id : Uuid) (db after : Database) (game : PersistedGame) (now : ℤ) (o : TerminalOutcome)
    → load_game id db ≡ some game
    → is_terminal game.game.status ≡ false
    → let ended = ended_tables game (locked_clock game.game now) o db in
      after.games ≡ ended.games
      → after.players ≡ ended.players
      → after.assignments ≡ ended.assignments
      → IsAllocated db
      → IsAllocated after
unfolding ended_tables release_players terminal_row
ended-IsAllocated id db after game now o h open_end g p a =
    let change = terminal_row (locked_clock game.game now) o in
    end-IsAllocated db after game.game change (load_game_self id db game h) open_end
      (λ x. unfold terminal_row in refl) g
      (λ i guest. rw p (
        seats-update_where (λ x. x.game_id == game.game.id) no_grace db.players i guest (λ x. refl)
          (λ x. refl)))
      (terminal_row_ends (locked_clock game.game now) o game.game) a

judge-IsAllocated :
    (id : Uuid) (db : Database) (game : PersistedGame) (now : ℤ)
    (r : Result GameDomainError TerminalOutcome)
    → load_game id db ≡ some game
    → is_terminal game.game.status ≡ false
    → IsAllocated db
    → IsAllocated
        (settle db ((or_throw r >>= finalize_terminal game (locked_clock game.game now)) db)).1
judge-IsAllocated id db game now (err e) h open_end v = v
judge-IsAllocated id db game now (ok o) h open_end v = elim (finalize_cases id db game now o h) [
  | inl e ↦ rw e v
  | inr e ↦ rw e (ended-IsAllocated id db _ game now o h open_end refl refl refl v)
]

judge-Updates :
    (id : Uuid) (db : Database) (game : PersistedGame) (now : ℤ)
    (r : Result GameDomainError TerminalOutcome)
    → load_game id db ≡ some game
    → is_terminal game.game.status ≡ false
    → let after =
        (settle db ((or_throw r >>= finalize_terminal game (locked_clock game.game now)) db)).1 in
      Change db after
judge-Updates id db game now (err e) h open_end = same_rows refl
judge-Updates id db game now (ok o) h open_end = elim (finalize_cases id db game now o h) [
  | inl e ↦ same_rows (ap (λ d. d.games) e)
  | inr e ↦ updates (ended-Updates id db _ game now o h open_end (ap (λ d. d.games) e))
]

judged-Proceeds :
    (id : Uuid) (db : Database) (game : PersistedGame) (now : ℤ) (e : TerminalEvent)
    → load_game id db ≡ some game
    → is_terminal game.game.status ≡ false
    → Proceeds db (judged game now e db)
unfolding judged
judged-Proceeds id db game now e h open_end = record {
  consistent = λ v. judge-IsConsistent id db game now (derive_terminal_outcome e) h v;
  allocated = λ v. judge-IsAllocated id db game now (derive_terminal_outcome e) h open_end v;
  rows = judge-Updates id db game now (derive_terminal_outcome e) h open_end;
}

-- An operation that leaves the tables, or judges an event in a game that has not ended.
pub kept :
    (id : Uuid) (db after : Database) (game : PersistedGame) (now : ℤ) (e : TerminalEvent)
    → load_game id db ≡ some game
    → (after ≡ db) ⊎ ((is_terminal game.game.status ≡ false) × (after ≡ judged game now e db))
    → Proceeds db after
kept id db after game now e h (inl same) = rw same (stays db)
kept id db after game now e h (inr (open_end, ends)) =
    rw ends (judged-Proceeds id db game now e h open_end)

-- A live game has not ended.
pub live_open : (s : GameStatus) → is_live s ≡ true → is_terminal s ≡ false
unfolding is_live
live_open s h = ground arith

timeout_ends :
    (id : Uuid) (db : Database) (game : PersistedGame) (now : ℤ)
    → load_game id db ≡ some game
    → let after = (adjudicate_timeout now id db).1 in
      (after ≡ db)
      ⊎ ((is_terminal game.game.status ≡ false)
          × (after ≡ judged game now (timed_out game.game.turn_color) db))
unfolding adjudicate_timeout timeout_in_transaction judged
timeout_ends id db game now h = ground (
  arith,
  lock_game_clock_lem id db game now h,
  locked_fields game.game now,
  live_open game.game.status,
)

timeout_kept :
    (id : Uuid) (db : Database) (now : ℤ)
    → load_game id db ≡ none
    → (adjudicate_timeout now id db).1 ≡ db
unfolding adjudicate_timeout timeout_in_transaction
timeout_kept id db now h = ground (arith, lock_game_clock-none id db now h)

pub Proceeds-adjudicate_timeout :
    (id : Uuid) (db : Database) (now : ℤ) → Proceeds db (adjudicate_timeout now id db).1
Proceeds-adjudicate_timeout id db now = elim (Option-cases (load_game id db)) [
  | inl missing ↦ rw (timeout_kept id db now missing) (stays db)
  | inr (game, h) ↦ kept id db _ game now _ h (timeout_ends id db game now h)
]

no_show_ends :
    (id : Uuid) (db : Database) (game : PersistedGame) (now : ℤ)
    → load_game id db ≡ some game
    → let after = (adjudicate_no_show now id db).1 in
      (after ≡ db)
      ⊎ ((is_terminal game.game.status ≡ false)
          × (after ≡ judged game now (joined_only (joined_colors game.players)) db))
unfolding adjudicate_no_show no_show_in_transaction judged eq_status
no_show_ends id db game now h = ground (
  arith,
  lock_game_clock_lem id db game now h,
  locked_fields game.game now,
  live_open game.game.status,
)

no_show_kept :
    (id : Uuid) (db : Database) (now : ℤ)
    → load_game id db ≡ none
    → (adjudicate_no_show now id db).1 ≡ db
unfolding adjudicate_no_show no_show_in_transaction
no_show_kept id db now h = ground (arith, lock_game_clock-none id db now h)

pub Proceeds-adjudicate_no_show :
    (id : Uuid) (db : Database) (now : ℤ) → Proceeds db (adjudicate_no_show now id db).1
Proceeds-adjudicate_no_show id db now = elim (Option-cases (load_game id db)) [
  | inl missing ↦ rw (no_show_kept id db now missing) (stays db)
  | inr (game, h) ↦ kept id db _ game now _ h (no_show_ends id db game now h)
]

abandonment_ends :
    (id : Uuid) (absent : List Uuid) (db : Database) (game : PersistedGame) (now : ℤ)
    → load_game id db ≡ some game
    → let after = (adjudicate_abandonment now id absent db).1 in
      let colors = map (λ p. p.color) (absent_players absent game.players) in
      (after ≡ db)
      ⊎ ((is_terminal game.game.status ≡ false) × (after ≡ judged game now (absence colors) db))
unfolding adjudicate_abandonment abandonment_in_transaction judged eq_status
abandonment_ends id absent db game now h = ground (
  arith,
  lock_game_clock_lem id db game now h,
  locked_fields game.game now,
  live_open game.game.status,
)

abandonment_kept :
    (id : Uuid) (absent : List Uuid) (db : Database) (now : ℤ)
    → load_game id db ≡ none
    → (adjudicate_abandonment now id absent db).1 ≡ db
unfolding adjudicate_abandonment abandonment_in_transaction
abandonment_kept id absent db now h = ground (arith, lock_game_clock-none id db now h)

pub Proceeds-adjudicate_abandonment :
    (id : Uuid) (absent : List Uuid) (db : Database) (now : ℤ)
    → Proceeds db (adjudicate_abandonment now id absent db).1
Proceeds-adjudicate_abandonment id absent db now = elim (Option-cases (load_game id db)) [
  | inl missing ↦ rw (abandonment_kept id absent db now missing) (stays db)
  | inr (game, h) ↦ kept id db _ game now _ h (abandonment_ends id absent db game now h)
]
