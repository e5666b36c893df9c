-- ===== src/Server/Commands.antt =====
-- What the commands of a guest leave: `resign` and `terminateForReset` of
-- prisma-game-lifecycle.repository.ts.
use clu_chess.Base.{false, ◌≡◌, ◌⊎◌, inl, inr, none, some, Option-cases, [], ◌∷◌, arith}
use clu_chess.Base.Number.{ℤ}
use clu_chess.Game.{eq_status}
use clu_chess.Game.StateMachine.Runs.{is_terminal}
use clu_chess.Game.Terminal.{absence, TerminalOutcome}
use clu_chess.Store.Loading.{PersistedGame, load_game, find_assignment, player_for}
use clu_chess.Store.LockedClock.{locked_clock}
use clu_chess.Store.Rows.{Uuid, PlayerRow, AssignmentRow, Database}
use clu_chess.Store.Soundness.{IsConsistent-same}
use clu_chess.Store.Tx.{thrown, unknown}
use clu_chess.Lifecycle.Adjudication.{locked_fields}
use clu_chess.Lifecycle.Ending.{terminate_for_reset, reset_in_transaction}
use clu_chess.Lifecycle.Finalize.{finalize_terminal}
use clu_chess.Lifecycle.Replay.{
  finalize_terminal_throws, resignation_outcome, resignation_outcome_lem, ended_tables_commands,
}
use clu_chess.Lifecycle.Resign.{ResignGame, resign, resign_in_transaction, create_command}
use clu_chess.Lifecycle.Settlement.{
  lock_game_clock_lem, lock_game_clock-none, ended_tables, ended_tables-IsConsistent,
  finalize_terminal_lem,
}
use clu_chess.Server.Endings.{ended-IsAllocated, ended-Updates, live_open, judged, kept}
use clu_chess.Server.Progress.{Proceeds, stays, updates}

reset_ends :
    (guest : Uuid) (a : AssignmentRow) (db : Database) (game : PersistedGame) (player : PlayerRow)
    (now : ℤ)
    → find_assignment guest db ≡ some a
    → load_game a.game_id db ≡ some game
    → player_for game guest ≡ some player
    → let after = (terminate_for_reset now guest db).1 in
      (after ≡ db)
      ⊎ ((is_terminal game.game.status ≡ false)
          × (after ≡ judged game now (absence (player.color ∷ [])) db))
unfolding terminate_for_reset reset_in_transaction judged eq_status
reset_ends guest a db game player now found h m =
    ground (arith, lock_game_clock_lem a.game_id db game now h, locked_fields game.game now)

free_kept :
    (guest : Uuid) (db : Database) (now : ℤ)
    → find_assignment guest db ≡ none
    → (terminate_for_reset now guest db).1 ≡ db
unfolding terminate_for_reset reset_in_transaction
free_kept guest db now h = ground arith

missing_kept :
    (guest : Uuid) (a : AssignmentRow) (db : Database) (now : ℤ)
    → find_assignment guest db ≡ some a
    → load_game a.game_id db ≡ none
    → (terminate_for_reset now guest db).1 ≡ db
unfolding terminate_for_reset reset_in_transaction
missing_kept guest a db now found h = ground (arith, lock_game_clock-none a.game_id db now h)

stranger_kept :
    (guest : Uuid) (a : AssignmentRow) (db : Database) (game : PersistedGame) (now : ℤ)
    → find_assignment guest db ≡ some a
    → load_game a.game_id db ≡ some game
    → player_for game guest ≡ none
    → (terminate_for_reset now guest db).1 ≡ db
unfolding terminate_for_reset reset_in_transaction
stranger_kept guest a db game now found h m =
    ground (arith, lock_game_clock_lem a.game_id db game now h)

pub Proceeds-terminate_for_reset :
    (guest : Uuid) (db : Database) (now : ℤ) → Proceeds db (terminate_for_reset now guest db).1
Proceeds-terminate_for_reset guest db now = elim (Option-cases (find_assignment guest db)) [
  | inl free ↦ rw (free_kept guest db now free) (stays db)
  | inr (a, found) ↦ elim (Option-cases (load_game a.game_id db)) [
    | inl missing ↦ rw (missing_kept guest a db now found missing) (stays db)
    | inr (game, h) ↦ elim (Option-cases (player_for game guest)) [
      | inl stranger ↦ rw (stranger_kept guest a db game now found h stranger) (stays db)
      | inr (player, m) ↦
          kept a.game_id db _ game now _ h (reset_ends guest a db game player now found h m)
    ]
  ]
]

-- The games, the players and the assignments after a resignation are those of one of two tables.
resign_ends :
    (db : Database) (game : PersistedGame) (p q player : PlayerRow) (now : ℤ) (input : ResignGame)
    → load_game input.game_id db ≡ some game
    → game.players ≡ p ∷ q ∷ []
    → player_for game input.guest_session_id ≡ some player
    → let after = (resign now input db).1 in
      let ended =
        ended_tables game (locked_clock game.game now) (resignation_outcome player.color) db in
      (after ≡ db)
      ⊎ ((is_terminal game.game.status ≡ false)
          × (after.games ≡ ended.games)
          × (after.players ≡ ended.players)
          × (after.assignments ≡ ended.assignments))
unfolding resign resign_in_transaction create_command
resign_ends db game p q player now input h e m = ground (
  arith,
  live_open game.game.status,
  lock_game_clock_lem input.game_id db game now h,
  resignation_outcome_lem player.color,
  finalize_terminal_lem input.game_id db game p q (locked_clock game.game now)
      (resignation_outcome player.color) h e,
  ended_tables_commands input.game_id input.event_id game now (resignation_outcome player.color) db,
)

resign_kept :
    (db : Database) (now : ℤ) (input : ResignGame)
    → load_game input.game_id db ≡ none
    → (resign now input db).1 ≡ db
unfolding resign resign_in_transaction
resign_kept db now input h = ground (arith, lock_game_clock-none input.game_id db now h)

stranger_resigns :
    (db : Database) (game : PersistedGame) (now : ℤ) (input : ResignGame)
    → load_game input.game_id db ≡ some game
    → player_for game input.guest_session_id ≡ none
    → (resign now input db).1 ≡ db
unfolding resign resign_in_transaction
stranger_resigns db game now input h m =
    ground (arith, lock_game_clock_lem input.game_id db game now h)

unpaired_resigns :
    (db : Database) (game : PersistedGame) (player : PlayerRow) (now : ℤ) (input : ResignGame)
    → load_game input.game_id db ≡ some game
    → player_for game input.guest_session_id ≡ some player
    → finalize_terminal game (locked_clock game.game now) (resignation_outcome player.color) db
      ≡ thrown unknown
    → (resign now input db).1 ≡ db
unfolding resign resign_in_transaction
unpaired_resigns db game player now input h m t =
    ground
      (arith, lock_game_clock_lem input.game_id db game now h, resignation_outcome_lem player.color)

resigned-Proceeds :
    (db after : Database) (id : Uuid) (game : PersistedGame) (now : ℤ) (o : TerminalOutcome)
    → load_game id db ≡ some game
    → let ended = ended_tables game (locked_clock game.game now) o db in
      (after ≡ db)
        ⊎ ((is_terminal game.game.status ≡ false)
            × (after.games ≡ ended.games)
            × (after.players ≡ ended.players)
            × (after.assignments ≡ ended.assignments))
      → Proceeds db after
resigned-Proceeds db after id game now o h (inl same) = rw same (stays db)
resigned-Proceeds db after id game now o h (inr (open_end, g, p, a)) = record {
  consistent = λ v. IsConsistent-same _ (ended_tables-IsConsistent id db game now o h v) g a;
  allocated = λ v. ended-IsAllocated id db after game now o h open_end g p a v;
  rows = updates (ended-Updates id db after game now o h open_end g);
}

pub Proceeds-resign :
    (db : Database) (now : ℤ) (input : ResignGame) → Proceeds db (resign now input db).1
Proceeds-resign db now input = elim (Option-cases (load_game input.game_id db)) [
  | inl missing ↦ rw (resign_kept db now input missing) (stays db)
  | inr (game, h) ↦ elim (Option-cases (player_for game input.guest_session_id)) [
    | inl stranger ↦ rw (stranger_resigns db game now input h stranger) (stays db)
    | inr (player, m) ↦
        elim (finalize_terminal_throws game (locked_clock game.game now)
          (resignation_outcome player.color) db) [
            | inl (p, q, e) ↦
                resigned-Proceeds db _ input.game_id game now _ h
                  (resign_ends db game p q player now input h e m)
            | inr t ↦ rw (unpaired_resigns db game player now input h m t) (stays db)
          ]
  ]
]
