-- ===== src/Gameplay/Replay.antt =====
-- A move that is sent again, and one that is refused (`replayResult` and `submitMove` of
-- prisma-gameplay.repository.ts).
use clu_chess.Base.{◌≡◌, refl, true, some, ok, arith}
use clu_chess.Base.Number.{ℤ}
use clu_chess.Chess.{ChessEngine}
use clu_chess.Store.Loading.{PersistedGame, load_game, find_command, player_for}
use clu_chess.Store.Rows.{PlayerRow, MoveSubmission, Database}
use clu_chess.Store.Tables.{update_game_hit, find-append_new}
use clu_chess.Lifecycle.Settlement.{lock_game_clock_lem, load_game_row, load_game_self}
use clu_chess.Gameplay.Acceptance.{Attempt, IsPlayable, moved_tables, submit_move_lem}
use clu_chess.Gameplay.Effect.{SubmitMove, moved_row, submission_of}
use clu_chess.Gameplay.Submit.{submit_move, submit_in_transaction, move_command, replay_result}

abbrev pub move_answer : ℤ → SubmitMove → Attempt → MoveSubmission
move_answer now input a =
    submission_of input a.game.game a.player.color a.clock a.evaluation a.terminal now a.guests

-- A stored move answers every later request of the same guest, whatever the game has come to.
submit_move_replays :
    (chess : ChessEngine) (db : Database) (game : PersistedGame) (player : PlayerRow) (now : ℤ)
    (input : SubmitMove) (s : MoveSubmission)
    → load_game input.game_id db ≡ some game
    → player_for game input.guest_session_id ≡ some player
    → find_command input.game_id input.client_move_id db ≡ some (move_command input s)
    → submit_move chess now input db ≡ (ok (record s { duplicate = true }), db)
unfolding submit_move submit_in_transaction replay_result move_command
submit_move_replays chess db game player now input s h m stored =
    ground (arith, lock_game_clock_lem input.game_id db game now h)

moved_load :
    (chess : ChessEngine) (now : ℤ) (input : SubmitMove) (db : Database) (a : Attempt)
    → IsPlayable chess now input db a
    → load_game input.game_id (moved_tables now input a db)
      ≡ some (record {
        game = moved_row a.player.color a.clock a.evaluation a.terminal now a.game.game;
        players = a.game.players;
      })
unfolding load_game moved_tables
moved_load chess now input db a h = ground (
  arith,
  load_game_row input.game_id db a.game h.loaded,
  (update_game_hit a.game.game.id (moved_row a.player.color a.clock a.evaluation a.terminal now)
      a.game.game db.games (load_game_self input.game_id db a.game h.loaded)
      (unfold moved_row in refl)).1,
)

moved_command :
    (chess : ChessEngine) (now : ℤ) (input : SubmitMove) (db : Database) (a : Attempt)
    → IsPlayable chess now input db a
    → find_command input.game_id input.client_move_id (moved_tables now input a db)
      ≡ some (move_command input (move_answer now input a))
unfolding find_command moved_tables
moved_command chess now input db a h =
    find-append_new _ db.commands (move_command input (move_answer now input a)) h.fresh
      (unfold move_command in ground arith)

-- A playable move that is sent twice is answered twice with the same acknowledgement, the
-- second time marked as a duplicate, at any later time and although the turn and the version
-- have changed; the second request leaves the tables as the first one left them.
pub submit_move-submit_move :
    (chess : ChessEngine) (now later : ℤ) (input : SubmitMove) (db : Database) (a : Attempt)
    → IsPlayable chess now input db a
    → let (answer, db') = submit_move chess now input db in
      (answer ≡ ok (move_answer now input a))
      × (submit_move chess later input db'
          ≡ (ok (record (move_answer now input a) { duplicate = true }), db'))
submit_move-submit_move chess now later input db a h = rw (submit_move_lem chess now input db a h) (
  refl,
  submit_move_replays chess _ _ a.player later input (move_answer now input a)
      (moved_load chess now input db a h) (unfold player_for in h.member)
      (moved_command chess now input db a h),
)
