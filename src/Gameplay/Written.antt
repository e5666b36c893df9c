-- ===== src/Gameplay/Written.antt =====
-- What an accepted move leaves and answers, column by column (`submitInTransaction` of
-- prisma-gameplay.repository.ts).
use clu_chess.Base.{
  ap, ◌∙◌, ℕ, ◌+◌, ◌==◌, ◌≡◌, ◌≢◌, refl, Bool, true, false, Option, none, some, [], ◌∷◌, ◌++◌, ok,
  arith, if◌then◌else◌,
}
use clu_chess.Base.Number.{ℤ}
use clu_chess.Game.{GameStatus, ready, in_progress, PlayerColor, w, b, opposite_color, eq_status}
use clu_chess.Game.Terminal.{TerminalOutcome, abandoned, completed, expired}
use clu_chess.Chess.{ChessEngine}
use clu_chess.Store.Codec.{persisted_result, persisted_termination}
use clu_chess.Store.Rows.{
  Uuid, GameRow, GameplayClock, MoveSubmission, CommandType, move_response, Database,
}
use clu_chess.Store.Tables.{find_game, delete_where, update_game_hit, update_game_other}
use clu_chess.Lifecycle.Finalize.{game_status}
use clu_chess.Lifecycle.Settlement.{load_game_self}
use clu_chess.Gameplay.Acceptance.{Attempt, IsPlayable, moved_tables, submit_move_lem}
use clu_chess.Gameplay.Effect.{
  SubmitMove, moved_row, played_move, submission_of, accepted_move, started_game, ended_game,
}
use clu_chess.Gameplay.Submit.{release_if, submit_move, move_command}

module _ (now : ℤ) (input : SubmitMove) (a : Attempt) where
  abbrev is_first_move : Bool
  is_first_move = elim a.game.game.status [ ready ↦ true | _ ↦ false ]

  abbrev next_color : PlayerColor
  next_color = elim a.player.color [ w ↦ b | b ↦ w ]

  abbrev version_after : ℕ
  version_after = if is_first_move then a.game.game.version + 2 else a.game.game.version + 1

  -- The row of a game that goes on, and of one that the move ends.
  abbrev pub written_row : GameRow
  written_row =
      let g = a.game.game in
      let row : GameRow = record g {
        black_clock_ms = a.clock.black_ms;
        current_fen = a.evaluation.applied.fen_after;
        pgn = a.evaluation.pgn;
        started_at = if is_first_move then some now else g.started_at;
        status = in_progress;
        turn_color = next_color;
        turn_started_at = some now;
        version = version_after;
        white_clock_ms = a.clock.white_ms;
      } in
      elim a.terminal [
        | none ↦ row
        | some o ↦ record row {
          ended_at = some now;
          result = some (persisted_result o.result);
          termination = some (persisted_termination o.termination);
          status = elim o.status [
            | abandoned ↦ GameStatus.abandoned
            | completed ↦ GameStatus.completed
            | expired ↦ GameStatus.expired
          ];
          turn_started_at = none;
        }
      ]

  abbrev pub told_clocks : GameplayClock
  told_clocks = record {
    black_ms = a.clock.black_ms;
    observed_at = now;
    running = elim a.terminal [ none ↦ some next_color | some _ ↦ none ];
    white_ms = a.clock.white_ms;
  }

  -- The acknowledgement.
  abbrev pub told_move : MoveSubmission
  told_move = record {
    accepted = record {
      check = a.evaluation.applied.check;
      client_move_id = input.client_move_id;
      clocks = told_clocks;
      fen_after = a.evaluation.applied.fen_after;
      game_id = a.game.game.id;
      game_version = version_after;
      ply = a.evaluation.applied.ply_number;
      san = a.evaluation.applied.san;
      turn = next_color;
      uci = a.evaluation.applied.uci;
    };
    duplicate = false;
    ended = elim a.terminal [
      | none ↦ none
      | some o ↦ some (record {
        clocks = told_clocks;
        final_fen = a.evaluation.applied.fen_after;
        game_id = a.game.game.id;
        game_version = version_after;
        pgn = a.evaluation.pgn;
        result = o.result;
        termination = o.termination;
      })
    ];
    guest_session_ids = a.guests;
    started =
        if is_first_move
        then some (record {
          clocks = record {
            black_ms = a.game.game.black_clock_ms;
            observed_at = now;
            running = some w;
            white_ms = a.game.game.white_clock_ms;
          };
          game_id = a.game.game.id;
          game_version = a.game.game.version + 1;
          initial_fen = a.game.game.initial_fen;
        })
        else none;
  }

  -- The tables against those before.
  pub record IsWritten (db after : Database) : Type 0 where
    pub row : find_game a.game.game.id after.games ≡ some written_row
    pub other_games :
        (i : Uuid) → a.game.game.id ≢ i → find_game i after.games ≡ find_game i db.games
    pub moves :
        after.moves
        ≡ db.moves
          ++ record {
            game_id = input.game_id;
            ply = a.evaluation.applied.ply_number;
            client_move_id = input.client_move_id;
            guest_session_id = input.guest_session_id;
            color = a.player.color;
            san = a.evaluation.applied.san;
            uci = a.evaluation.applied.uci;
            fen_before = a.evaluation.applied.fen_before;
            fen_after = a.evaluation.applied.fen_after;
            server_received_at = now;
          }
            ∷ []
    pub commands :
        after.commands
        ≡ db.commands
          ++ record {
            game_id = input.game_id;
            guest_session_id = input.guest_session_id;
            event_id = input.client_move_id;
            command_type = CommandType.move;
            result_version = version_after;
            response =
                move_response told_move.accepted told_move.ended told_move.guest_session_ids
                  told_move.started;
          }
            ∷ []
    pub assignments : after.assignments ≡ elim a.terminal [
      | none ↦ db.assignments
      | some _ ↦ delete_where (λ x. x.game_id == a.game.game.id) db.assignments
    ]
    pub players : after.players ≡ db.players
    pub guests : after.guests ≡ db.guests

  submission_of-told_move :
      (chess : ChessEngine) (db : Database)
      → IsPlayable chess now input db a
      → submission_of input a.game.game a.player.color a.clock a.evaluation a.terminal now a.guests
        ≡ told_move
  unfolding submission_of accepted_move started_game ended_game opposite_color eq_status
  submission_of-told_move chess db h = ground (arith, h.status)

  moved_row-written_row :
      (chess : ChessEngine) (db : Database)
      → IsPlayable chess now input db a
      → moved_row a.player.color a.clock a.evaluation a.terminal now a.game.game ≡ written_row
  unfolding moved_row game_status opposite_color eq_status
  moved_row-written_row chess db h = ground (arith, h.status)

  released :
      (t : Option TerminalOutcome) (id : Uuid) (db : Database)
      → ((release_if t id db).games ≡ db.games)
        × ((release_if t id db).moves ≡ db.moves)
        × ((release_if t id db).players ≡ db.players)
        × ((release_if t id db).guests ≡ db.guests)
        × ((release_if t id db).assignments ≡ elim t [
          | none ↦ db.assignments
          | some _ ↦ delete_where (λ x. x.game_id == id) db.assignments
        ])
  released none id db = (refl, refl, refl, refl, refl)
  released (some o) id db = (refl, refl, refl, refl, refl)

  moved_tables-IsWritten :
      (chess : ChessEngine) (db : Database)
      → IsPlayable chess now input db a
      → IsWritten db (moved_tables now input a db)
  unfolding moved_tables played_move move_command
  moved_tables-IsWritten chess db h =
      let g = a.game.game in
      let row = moved_row a.player.color a.clock a.evaluation a.terminal now in
      let told = submission_of-told_move chess db h in
      let kept = released a.terminal g.id _ in
      record {
        row = rw kept.0 (
            (update_game_hit g.id row g db.games (load_game_self input.game_id db a.game h.loaded)
              (unfold moved_row in refl)).1
            ∙ ap some (moved_row-written_row chess db h));
        other_games = λ i ne.
            rw kept.0
              (update_game_other g.id i g.version row db.games ne (λ x. unfold moved_row in refl));
        moves = kept.1;
        commands = ap (λ s. db.commands ++ move_command input s ∷ []) told;
        assignments = kept.4;
        players = kept.2;
        guests = kept.3;
      }

  -- A move that meets the conditions of `IsPlayable` is accepted: the game and the player are
  -- found, no command is stored for its client id, the game is IN_PROGRESS or READY, it is the
  -- player's turn, the expected version is the game's, the history is contiguous, the clock
  -- admits the move, the engine evaluates it for the player's color, a game over is a valid
  -- terminal event, there are two players, the move's ply is not 0, and no row of the moves has
  -- its ply or client id. The answer acknowledges the move with the clocks and the position
  -- after it, the turn of the opponent and the version after it, which is one more, or two for
  -- the first move of a game that is READY, and announces that start and an end. The game's row
  -- gets the position, the clocks, the turn and the version; it is IN_PROGRESS, or has the
  -- status, result, termination and time of an end; the move and the command are appended; the
  -- assignments of a game that the move ends are deleted; nothing else changes.
  pub submit_move-IsWritten :
      (chess : ChessEngine) (db : Database)
      → IsPlayable chess now input db a
      → let (answer, after) = submit_move chess now input db in
        (answer ≡ ok told_move) × IsWritten db after
  submit_move-IsWritten chess db h =
      rw (submit_move_lem chess now input db a h)
        (ap ok (submission_of-told_move chess db h), moved_tables-IsWritten chess db h)
