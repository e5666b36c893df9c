-- ===== src/Server/Moves.antt =====
-- What a request to move leaves (`submitMove` of prisma-gameplay.repository.ts).
use clu_chess.Base.{◌≡◌, refl, inl, inr, arith, Option, some, none, false}
use clu_chess.Base.Number.{ℤ}
use clu_chess.Game.{eq_status}
use clu_chess.Game.StateMachine.Runs.{is_terminal}
use clu_chess.Game.Terminal.{TerminalOutcome}
use clu_chess.Chess.{ChessEngine}
use clu_chess.Store.Rows.{Database, GameRow, Uuid}
use clu_chess.Store.Seats.{is_seated, IsAllocated, update-IsAllocated, end-IsAllocated}
use clu_chess.Store.Tables.{find_game, update_game}
use clu_chess.Lifecycle.Finalize.{game_status}
use clu_chess.Lifecycle.Settlement.{load_game_self}
use clu_chess.Gameplay.Acceptance.{Attempt, IsPlayable, moved_tables}
use clu_chess.Gameplay.Effect.{SubmitMove, moved_row}
use clu_chess.Gameplay.Invariant.{moved_tables-IsConsistent}
use clu_chess.Gameplay.Requests.{submit_move_cases}
use clu_chess.Gameplay.Submit.{submit_move}
use clu_chess.Server.Progress.{Proceeds, stays, updates}

moved_games :
    (now : ℤ) (input : SubmitMove) (a : Attempt) (db : Database)
    → (moved_tables now input a db).games
      ≡ (update_game a.game.game.id a.game.game.version
          (moved_row a.player.color a.clock a.evaluation a.terminal now)
          db.games).1
unfolding moved_tables
moved_games now input a db = ground arith

moved-IsAllocated :
    (chess : ChessEngine) (now : ℤ) (input : SubmitMove) (db : Database) (a : Attempt)
    → IsPlayable chess now input db a
    → IsAllocated db
    → IsAllocated (moved_tables now input a db)
unfolding moved_tables
moved-IsAllocated chess now input db a h v = by_end a.terminal refl
  where
    row : GameRow → GameRow
    row = moved_row a.player.color a.clock a.evaluation a.terminal now

    found : find_game a.game.game.id db.games ≡ some a.game.game
    found = load_game_self input.game_id db a.game h.loaded

    open_end : is_terminal a.game.game.status ≡ false
    open_end = ground (arith, h.status)

    seats :
        (i guest : Uuid)
        → is_seated i guest (moved_tables now input a db).players ≡ is_seated i guest db.players
    seats i guest = ground arith

    by_end :
        (o : Option TerminalOutcome) → a.terminal ≡ o → IsAllocated (moved_tables now input a db)
    by_end none e =
        update-IsAllocated db _ a.game.game row found open_end (λ x. unfold moved_row in refl)
          (moved_games now input a db) seats (rw e refl) v
    by_end (some o) e =
        end-IsAllocated db _ a.game.game row found open_end (λ x. unfold moved_row in refl)
          (moved_games now input a db) seats (unfold moved_row game_status in ground (arith, e))
          (rw e refl) v

moved-Proceeds :
    (chess : ChessEngine) (now : ℤ) (input : SubmitMove) (db : Database) (a : Attempt)
    → IsPlayable chess now input db a
    → Proceeds db (moved_tables now input a db)
unfolding moved_row eq_status
moved-Proceeds chess now input db a h = record {
  consistent = λ v. moved_tables-IsConsistent chess now input db a h v;
  allocated = λ v. moved-IsAllocated chess now input db a h v;
  rows = updates (record {
    row = a.game.game;
    change = moved_row a.player.color a.clock a.evaluation a.terminal now;
    found = load_game_self input.game_id db a.game h.loaded;
    open_end = ground (arith, h.status);
    same_id = λ x. refl;
    later = ground arith;
    games = moved_games now input a db;
  });
}

pub Proceeds-submit_move :
    (chess : ChessEngine) (now : ℤ) (input : SubmitMove) (db : Database)
    → Proceeds db (submit_move chess now input db).1
Proceeds-submit_move chess now input db = elim (submit_move_cases chess now input db) [
  | inl same ↦ rw same (stays db)
  | inr (a, h, moved) ↦ rw moved (moved-Proceeds chess now input db a h)
]
