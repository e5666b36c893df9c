-- ===== src/Examples.antt =====
-- A small server to run the operations on: one game, its two players and their assignments.
mod Rules
mod Endings
mod Moves
mod Stories
mod Openings
mod Queues
mod Rooms
mod Timers
use clu_chess.Base.{ℕ, true, false, none, some, List, [], ◌∷◌, ok, err, length, ◌+◌}
use clu_chess.Base.Number.{pos}
use clu_chess.Game.{GameStatus, in_progress, reconnecting, waiting_for_players, w, b}
use clu_chess.Chess.{
  ChessEngine, MoveEvaluation, EvaluateMoveInput, ChessEngineErrorCode, ongoing, MoveInput,
}
use clu_chess.Store.Loading.{PersistedGame}
use clu_chess.Store.Rows.{GameRow, PlayerRow, Slot, AssignmentRow, Database}

abbrev pub white : PlayerRow
white = record {
  id = 11;
  game_id = 1;
  guest_session_id = 101;
  color = w;
  slot = Slot.first;
  joined_at = some (pos 500);
  connected_at = some (pos 500);
  disconnected_at = none;
  reconnect_grace_ends_at = none;
}

abbrev pub black : PlayerRow
black = record white { id = 12; guest_session_id = 102; color = b; slot = Slot.second }

-- Black has gone at 1500 and may be away until 1900.
abbrev pub black_away : PlayerRow
black_away = record black {
  connected_at = none;
  disconnected_at = some (pos 1500);
  reconnect_grace_ends_at = some (pos 1900);
}

abbrev pub row : GameRow
row = record {
  id = 1;
  match_id = 7;
  status = in_progress;
  initial_fen = "start";
  current_fen = "start";
  turn_color = w;
  pgn = "";
  version = 2;
  result = none;
  termination = none;
  time_initial_ms = pos 3000;
  increment_ms = pos 20;
  white_clock_ms = pos 3000;
  black_clock_ms = pos 3000;
  turn_started_at = some (pos 1000);
  join_deadline_at = some (pos 800);
  reconnect_deadline_at = none;
  started_at = some (pos 1000);
  ended_at = none;
}

abbrev pub waiting_row : GameRow
waiting_row = record row {
  status = waiting_for_players;
  turn_started_at = none;
  started_at = none;
  version = 0;
}

abbrev pub away_row : GameRow
away_row = record row {
  status = reconnecting;
  reconnect_deadline_at = some (pos 1900);
  version = 3;
}

abbrev pub game_of : GameRow → List PlayerRow → PersistedGame
game_of g ps = record { game = g; players = ps }

abbrev pub tables : GameRow → List PlayerRow → Database
tables g ps = record {
  guests = [];
  games = g ∷ [];
  players = ps;
  assignments =
      record { guest_session_id = 101; game_id = 1 }
      ∷ record { guest_session_id = 102; game_id = 1 }
      ∷ [];
  moves = [];
  commands = [];
}

-- An engine that finds every move of white legal.
abbrev pub evaluation : EvaluateMoveInput → MoveEvaluation
evaluation q = record {
  applied = record {
    capture = false;
    check = false;
    color = w;
    fen_after = "after";
    fen_before = q.expected_current_fen;
    ply_number = length q.history + 1;
    san = "e4";
    uci = "e2e4";
  };
  game_over = ongoing;
  pgn = "1. e4";
}

abbrev pub engine : ChessEngine
engine = record {
  evaluate_move = λ q. ok (evaluation q);
  new_game = err ChessEngineErrorCode.invalid_initial_position;
  replay = λ fen history. err ChessEngineErrorCode.game_state_corrupt;
}

abbrev pub e4 : MoveInput
e4 = record { from = "e2"; promotion = none; to = "e4" }
