-- ===== src/Examples/Moves.antt =====
-- The first move of the game.
use clu_chess.Base.{ap, ◌⊎◌, arith, refl, none, some, [], ◌∷◌, inl, ℕ, ◌≡◌, ok, ◌++◌, false, true}
use clu_chess.Base.Number.{pos, ◌+ℤ◌, ◌-ℤ◌}
use clu_chess.Game.{w, eq_color, eq_status, opposite_color}
use clu_chess.Game.Clock.{admit_move_on_clock}
use clu_chess.Store.Loading.{load_game, players_of, player_for, find_command, lock_game_clock}
use clu_chess.Store.LockedClock.{locked_clock, is_live}
use clu_chess.Store.Rows.{GameRow, Database}
use clu_chess.Store.Soundness.{IsSound, IsConsistent}
use clu_chess.Store.Tables.{find_game}
use clu_chess.Lifecycle.Replay.{is_ok}
use clu_chess.Gameplay.Acceptance.{submit_move_lem, moved_tables, Attempt, IsPlayable}
use clu_chess.Gameplay.Effect.{
  submission_of, SubmitMove, admit, board_outcome, guest_pair, played_move, question,
}
use clu_chess.Gameplay.History.{moves_of, has_contiguous_history}
use clu_chess.Gameplay.Plies.{NumbersPlies, moved_tables-has_contiguous_history}
use clu_chess.Gameplay.Refusal.{submit_move_refused}
use clu_chess.Gameplay.Replay.{move_answer, submit_move-submit_move}
use clu_chess.Gameplay.Requests.{submit_move_cases}
use clu_chess.Gameplay.Soundness.{submit_move-IsPlayable}
use clu_chess.Gameplay.Submit.{guard_game, submit_move, submit_in_transaction}
use clu_chess.Gameplay.Written.{told_move, IsWritten, submit_move-IsWritten}
use clu_chess.Examples.{white, black, row, game_of, tables, evaluation, engine, e4, w}

abbrev start : Database
start = tables row (white ∷ black ∷ [])

abbrev input : SubmitMove
input = record {
  client_move_id = 900;
  expected_version = 2;
  game_id = 1;
  guest_session_id = 101;
  move = e4;
}

abbrev attempt : Attempt
attempt = record {
  game = game_of row (white ∷ black ∷ []);
  player = white;
  clock = record {
    black_ms = pos 3000;
    increment_ms = pos 20;
    running = some (opposite_color w);
    turn_started_at = some (some (pos 1400));
    white_ms = pos 2620;
  };
  elapsed = pos 400;
  evaluation = evaluation (question input row []);
  terminal = none;
  guests = (101, 102);
}

start-IsPlayable : IsPlayable engine (pos 1400) input start attempt
unfolding load_game find_game players_of player_for find_command admit admit_move_on_clock
    board_outcome guest_pair played_move moves_of has_contiguous_history eq_status ◌+ℤ◌ ◌-ℤ◌
    question opposite_color
start-IsPlayable = record {
  loaded = refl;
  member = refl;
  fresh = refl;
  status = inl refl;
  turn = refl;
  version = refl;
  history = refl;
  in_time = refl;
  legal = refl;
  color = refl;
  outcome = refl;
  guests = refl;
  numbered = refl;
  unplayed = refl;
}

found_row : (id : ℕ) (g : GameRow) → find_game id start.games ≡ some g → g ≡ row
unfolding find_game
found_row id g h = ground arith

row-IsSound : IsSound row
unfolding is_live
row-IsSound = record {
  result = refl;
  termination = refl;
  ended = refl;
  turn = refl;
  started = λ _. refl;
  white = ground arith;
  black = ground arith;
  increment = ground arith;
}

start-IsConsistent : IsConsistent start
start-IsConsistent = record {
  sound = λ id g h. rw (found_row id g h) row-IsSound;
  released = λ id g h t. cc (found_row id g h);
}

engine-NumbersPlies : NumbersPlies engine
unfolding NumbersPlies
engine-NumbersPlies q e h = ground arith

submit_move-IsWritten_example :
    let (answer, after) = submit_move engine (pos 1400) input start in
    (answer ≡ ok (told_move (pos 1400) input attempt))
    × IsWritten (pos 1400) input attempt start after
submit_move-IsWritten_example =
    submit_move-IsWritten (pos 1400) input attempt engine start start-IsPlayable

submit_move-submit_move_example :
    let (answer, db') = submit_move engine (pos 1400) input start in
    (answer ≡ ok (move_answer (pos 1400) input attempt))
    × (submit_move engine (pos 9000) input db'
        ≡ (ok (record (move_answer (pos 1400) input attempt) { duplicate = true }), db'))
submit_move-submit_move_example =
    submit_move-submit_move engine (pos 1400) (pos 9000) input start attempt start-IsPlayable

-- Black is not to move.
abbrev early : SubmitMove
early = record input { guest_session_id = 102 }

early_refused : is_ok (submit_move engine (pos 1400) early start).0 ≡ false
unfolding submit_move submit_in_transaction lock_game_clock locked_clock load_game find_game
    players_of player_for find_command guard_game eq_status eq_color
early_refused = refl

submit_move_refused_example : (submit_move engine (pos 1400) early start).1 ≡ start
submit_move_refused_example = submit_move_refused engine (pos 1400) early start early_refused

moved_tables-has_contiguous_history_example :
    let after = moves_of 1 (moved_tables (pos 1400) input attempt start).moves in
    (after
      ≡ moves_of 1 [] ++ played_move input w (evaluation (question input row [])) (pos 1400) ∷ [])
    × (has_contiguous_history after ≡ true)
moved_tables-has_contiguous_history_example =
    moved_tables-has_contiguous_history engine (pos 1400) input start attempt engine-NumbersPlies
      start-IsPlayable

submit_move_cases_example :
    ((submit_move engine (pos 1400) early start).1 ≡ start)
    ⊎ ((a : Attempt) × IsPlayable engine (pos 1400) early start a
        × (submit_move engine (pos 1400) early start
            ≡ (ok (move_answer (pos 1400) early a), moved_tables (pos 1400) early a start)))
submit_move_cases_example = submit_move_cases engine (pos 1400) early start

input_accepted :
    (submit_move engine (pos 1400) input start).0 ≡ ok (move_answer (pos 1400) input attempt)
input_accepted =
    ap (λ r. r.0) (submit_move_lem engine (pos 1400) input start attempt start-IsPlayable)

input_new : (move_answer (pos 1400) input attempt).duplicate ≡ false
unfolding submission_of
input_new = refl

submit_move-IsPlayable_example : (a : Attempt) × IsPlayable engine (pos 1400) input start a
submit_move-IsPlayable_example =
    submit_move-IsPlayable engine (pos 1400) input start (move_answer (pos 1400) input attempt)
      input_accepted input_new
