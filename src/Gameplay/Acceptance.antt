-- ===== src/Gameplay/Acceptance.antt =====
-- What an accepted move answers and writes (`submitMove` of prisma-gameplay.repository.ts).
use clu_chess.Base.{
  ◌≡◌, ◌==◌, refl, ◌⊎◌, true, false, Option, none, some, [], ◌∷◌, ◌++◌, any, ok, arith,
}
use clu_chess.Base.Number.{ℤ}
use clu_chess.Game.{in_progress, ready, PlayerColor, eq_status, eq_color}
use clu_chess.Game.Clock.{GameClock, ClockAdmission}
use clu_chess.Game.Terminal.{TerminalOutcome}
use clu_chess.Chess.{ChessEngine, MoveEvaluation}
use clu_chess.Store.Loading.{PersistedGame, load_game, find_command, player_for}
use clu_chess.Store.LockedClock.{locked_clock}
use clu_chess.Store.Rows.{Uuid, GameRow, PlayerRow, Database}
use clu_chess.Store.Tables.{update_game}
use clu_chess.Store.Tx.{next, returned}
use clu_chess.Lifecycle.Resign.{create_command}
use clu_chess.Lifecycle.Settlement.{
  lock_game_clock_lem, load_game_row, load_game_self, update_game_row_lem,
}
use clu_chess.Gameplay.Effect.{
  question, SubmitMove, admit, board_outcome, guest_pair, moved_row, played_move, submission_of,
}
use clu_chess.Gameplay.History.{moves_of, has_contiguous_history, create_move, same_move}
use clu_chess.Gameplay.Submit.{
  MoveResult, accepted, submit_move, submit_in_transaction, play_move, move_command, release_if,
  guard_game, commit_move,
}

-- The move that a player makes in a loaded game, and what the clock and the engine say of it.
pub record Attempt : Type 0 where
  pub game : PersistedGame
  pub player : PlayerRow
  pub clock : GameClock
  pub elapsed : ℤ
  pub evaluation : MoveEvaluation
  pub terminal : Option TerminalOutcome
  pub guests : Uuid × Uuid

-- The conditions of an accepted move.
pub record IsPlayable (chess : ChessEngine) (now : ℤ) (input : SubmitMove) (db : Database)
    (a : Attempt) : Type 0 where
  pub loaded : load_game input.game_id db ≡ some a.game
  pub member : player_for a.game input.guest_session_id ≡ some a.player
  pub fresh : find_command input.game_id input.client_move_id db ≡ none
  pub status : (a.game.game.status ≡ in_progress) ⊎ (a.game.game.status ≡ ready)
  pub turn : a.game.game.turn_color ≡ a.player.color
  pub version : input.expected_version ≡ a.game.game.version
  pub history : has_contiguous_history (moves_of a.game.game.id db.moves) ≡ true
  pub in_time :
      admit a.game.game a.player.color now ≡ ok (ClockAdmission.accepted a.clock a.elapsed)
  pub legal :
      chess.evaluate_move (question input a.game.game (moves_of a.game.game.id db.moves))
      ≡ ok a.evaluation
  pub color : a.evaluation.applied.color ≡ a.player.color
  pub outcome : board_outcome a.evaluation.game_over ≡ ok a.terminal
  pub guests : guest_pair a.game.players ≡ some a.guests
  pub numbered : (a.evaluation.applied.ply_number == 0) ≡ false
  pub unplayed :
      any (same_move (played_move input a.player.color a.evaluation now)) db.moves ≡ false

-- The tables after it.
unfoldable pub moved_tables : ℤ → SubmitMove → Attempt → Database → Database
moved_tables now input a db =
    let g = a.game.game in
    let row = moved_row a.player.color a.clock a.evaluation a.terminal now in
    let s = submission_of input g a.player.color a.clock a.evaluation a.terminal now a.guests in
    let db' = release_if a.terminal g.id (record db {
      games = (update_game g.id g.version row db.games).1;
      moves = db.moves ++ played_move input a.player.color a.evaluation now ∷ [];
    }) in
    record db' { commands = db.commands ++ move_command input s ∷ [] }

guard_game_passes :
    (input : SubmitMove) (g : GameRow) (mover : PlayerColor) (db : Database)
    → (g.status ≡ in_progress) ⊎ (g.status ≡ ready)
    → g.turn_color ≡ mover
    → input.expected_version ≡ g.version
    → has_contiguous_history (moves_of g.id db.moves) ≡ true
    → guard_game input g mover db ≡ next tt db
unfolding guard_game eq_status eq_color
guard_game_passes input g mover db h t v c = ground arith

commit_move_lem :
    (chess : ChessEngine) (now : ℤ) (input : SubmitMove) (db : Database) (a : Attempt)
    → IsPlayable chess now input db a
    → commit_move input a.game.game a.player.color a.clock a.evaluation a.terminal now a.guests db
      ≡ returned
          (accepted (
            submission_of input a.game.game a.player.color a.clock a.evaluation a.terminal now
              a.guests))
          (moved_tables now input a db)
unfolding commit_move create_move moved_tables create_command find_command move_command played_move
commit_move_lem chess now input db a h =
    let row = moved_row a.player.color a.clock a.evaluation a.terminal now in
    ground (
      arith,
      h.numbered,
      h.unplayed,
      h.fresh,
      (load_game_row input.game_id db a.game h.loaded),
      update_game_row_lem {R = MoveResult} a.game.game row db
          (load_game_self input.game_id db a.game h.loaded) (unfold moved_row in refl),
    )

play_move_lem :
    (chess : ChessEngine) (now : ℤ) (input : SubmitMove) (db : Database) (a : Attempt)
    → IsPlayable chess now input db a
    → play_move chess now input a.game a.player db
      ≡ returned
          (accepted (
            submission_of input a.game.game a.player.color a.clock a.evaluation a.terminal now
              a.guests))
          (moved_tables now input a db)
unfolding play_move eq_color
play_move_lem chess now input db a h = ground (
  arith,
  h.in_time,
  h.legal,
  h.color,
  h.outcome,
  h.guests,
  commit_move_lem chess now input db a h,
)

-- An attempt that meets the conditions is made.
pub submit_move_lem :
    (chess : ChessEngine) (now : ℤ) (input : SubmitMove) (db : Database) (a : Attempt)
    → IsPlayable chess now input db a
    → submit_move chess now input db ≡ (
      ok (
          submission_of input a.game.game a.player.color a.clock a.evaluation a.terminal now
            a.guests),
      moved_tables now input a db,
    )
unfolding submit_move submit_in_transaction locked_clock
submit_move_lem chess now input db a h = ground (
  arith,
  h.loaded,
  h.member,
  h.fresh,
  lock_game_clock_lem input.game_id db a.game now h.loaded,
  guard_game_passes input a.game.game a.player.color db h.status h.turn h.version h.history,
  play_move_lem chess now input db a h,
)
