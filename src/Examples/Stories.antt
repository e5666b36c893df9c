-- ===== src/Examples/Stories.antt =====
-- A history of the server.
use clu_chess.Base.{some, none, ℕ, ◌≡◌, refl, [], ◌∷◌, List, arith}
use clu_chess.Base.Number.{ℤ, pos}
use clu_chess.Game.{GameStatus}
use clu_chess.Store.LockedClock.{is_live}
use clu_chess.Store.Rows.{GameRow, Database}
use clu_chess.Store.Soundness.{IsSound, IsConsistent}
use clu_chess.Store.Tables.{find_game}
use clu_chess.Server.Histories.{
  run-Follows, run_final, Operation, moves, disconnects, reconnects, resigns, times_out, run,
  run-IsConsistent,
}
use clu_chess.Server.Progress.{Follows}
use clu_chess.Examples.{white, black, row, tables, engine, e4}

abbrev start : Database
start = tables row (white ∷ black ∷ [])

found_row : (id : ℕ) (g : GameRow) → find_game id start.games ≡ some g → g ≡ row
unfolding find_game
found_row id g h = ground arith

row-IsSound : IsSound row
unfolding is_live
row-IsSound = record {
  result = refl;
  termination = refl;
  ended = refl;
  turn = refl;
  started = λ _. refl;
  white = ground arith;
  black = ground arith;
  increment = ground arith;
}

start-IsConsistent : IsConsistent start
start-IsConsistent = record {
  sound = λ id g h. rw (found_row id g h) row-IsSound;
  released = λ id g h t. cc (found_row id g h);
}

-- White moves, black goes and comes back, black resigns, and a late timer finds the game ended.
abbrev story : List (ℤ × Operation)
story =
    (
      pos 1400,
      moves (record {
        client_move_id = 900;
        expected_version = 2;
        game_id = 1;
        guest_session_id = 101;
        move = e4;
      }),
    )
    ∷ (pos 1500, disconnects 102 (pos 400))
    ∷ (pos 1700, reconnects 102)
    ∷ (
      pos 1800,
      resigns
          (record { event_id = 901; expected_version = 5; game_id = 1; guest_session_id = 102 }),
    )
    ∷ (pos 9000, times_out 1)
    ∷ []

run-IsConsistent_example : IsConsistent (run engine story start)
run-IsConsistent_example = run-IsConsistent engine story start start-IsConsistent

row_found : find_game 1 start.games ≡ some row
unfolding find_game
row_found = refl

run-Follows_example :
    (g' : GameRow) × (find_game 1 (run engine story start).games ≡ some g') × Follows row g'
run-Follows_example = run-Follows engine story start 1 row row_found

abbrev over_row : GameRow
over_row = record row { status = GameStatus.completed; turn_started_at = none; version = 9 }

abbrev over : Database
over = tables over_row (white ∷ black ∷ [])

over_found : find_game 1 over.games ≡ some over_row
unfolding find_game
over_found = refl

run_final_example : find_game 1 (run engine story over).games ≡ some over_row
run_final_example = run_final engine story over 1 over_row over_found refl
