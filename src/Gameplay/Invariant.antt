-- ===== src/Gameplay/Invariant.antt =====
-- The tables that an accepted move leaves are consistent (prisma-gameplay.repository.ts).
use mathlib.Core.Path.{subst}
use clu_chess.Base.{◌≡◌, refl, sym, ◌⊎◌, Option, none, some, ok, >>=-eq-ok, arith}
use clu_chess.Base.Number.{ℤ}
use clu_chess.Game.{PlayerColor, in_progress, ready, eq_status, opposite_color}
use clu_chess.Game.Clock.{GameClock, accepted, admit_move_on_clock}
use clu_chess.Game.Clock.Admission.{Charges, elapsed, admit-Charges, IsRunning-admit}
use clu_chess.Game.Clock.WellFormed.{IsRunning}
use clu_chess.Game.Terminal.{TerminalOutcome}
use clu_chess.Chess.{ChessEngine, MoveEvaluation}
use clu_chess.Store.LockedClock.{is_live}
use clu_chess.Store.Rows.{GameRow, Database}
use clu_chess.Store.Soundness.{
  IsSound, IsConsistent, IsConsistent-same, update-IsConsistent, end-IsConsistent,
}
use clu_chess.Store.Tables.{find_game}
use clu_chess.Lifecycle.Finalize.{game_status}
use clu_chess.Lifecycle.Settlement.{load_game_self}
use clu_chess.Gameplay.Acceptance.{Attempt, IsPlayable, moved_tables}
use clu_chess.Gameplay.Effect.{SubmitMove, admit, moved_row}

-- The clock of an admitted move runs for the opponent from now on.
admit-IsRunning :
    (g : GameRow) (mover : PlayerColor) (now : ℤ) (c : GameClock) (e : ℤ)
    → admit g mover now ≡ ok (accepted c e)
    → IsRunning c (opposite_color mover) now
unfolding admit
admit-IsRunning g mover now c e h =
    let (c0, _, admitted) = >>=-eq-ok _ (λ x. admit_move_on_clock x mover (some now)) h in
    let (t, running, _) = IsRunning-admit c0 mover (some now) admitted in
    let charged : Charges c0 mover (elapsed t now) now (ok (accepted c e)) =
      subst (Charges c0 mover (elapsed t now) now) admitted
        (admit-Charges c0 mover t now running) in
    charged.2

moved_row-IsSound :
    (mover : PlayerColor) (c : GameClock) (evaluation : MoveEvaluation) (o : Option TerminalOutcome)
    (now : ℤ) (g : GameRow)
    → IsRunning c (opposite_color mover) now
    → (g.status ≡ in_progress) ⊎ (g.status ≡ ready)
    → IsSound g
    → IsSound (moved_row mover c evaluation o now g)
unfolding moved_row eq_status game_status is_live
moved_row-IsSound mover c evaluation none now g r s h = record {
  result = ground arith;
  termination = ground arith;
  ended = ground arith;
  turn = ground arith;
  started = ground arith;
  white = ground arith;
  black = ground arith;
  increment = ground arith;
}
moved_row-IsSound mover c evaluation (some o) now g r s h = record {
  result = ground arith;
  termination = ground arith;
  ended = ground arith;
  turn = ground arith;
  started = ground arith;
  white = ground arith;
  black = ground arith;
  increment = ground arith;
}

row_moved :
    (chess : ChessEngine) (now : ℤ) (input : SubmitMove) (db : Database) (a : Attempt)
    → IsPlayable chess now input db a
    → (x : GameRow) → find_game a.game.game.id db.games ≡ some x
    → IsSound x
    → IsSound (moved_row a.player.color a.clock a.evaluation a.terminal now x)
row_moved chess now input db a h x found sound =
    let same : x ≡ a.game.game = ground (arith, load_game_self input.game_id db a.game h.loaded) in
    moved_row-IsSound a.player.color a.clock a.evaluation a.terminal now x
      (admit-IsRunning a.game.game a.player.color now a.clock a.elapsed h.in_time)
      (subst (λ g. (g.status ≡ in_progress) ⊎ (g.status ≡ ready)) (sym same) h.status) sound

-- A playable move leaves consistent tables consistent: every game row satisfies the constraints
-- on terminal states, on the running clock and on the clocks' signs, and a game that has ended
-- has no active assignment.
pub moved_tables-IsConsistent :
    (chess : ChessEngine) (now : ℤ) (input : SubmitMove) (db : Database) (a : Attempt)
    → IsPlayable chess now input db a
    → IsConsistent db
    → IsConsistent (moved_tables now input a db)
unfolding moved_tables
moved_tables-IsConsistent chess now input db a h v = by_end a.terminal refl
  where
    row : Option TerminalOutcome → GameRow → GameRow
    row o = moved_row a.player.color a.clock a.evaluation o now

    by_end :
        (o : Option TerminalOutcome) → a.terminal ≡ o → IsConsistent (moved_tables now input a db)
    by_end none e =
        IsConsistent-same _
          (update-IsConsistent db a.game.game.id a.game.game.version (row a.terminal)
            (λ x. unfold moved_row in refl)
            (λ x found.
              unfold moved_row eq_status in
              ground (arith, e, load_game_self input.game_id db a.game h.loaded, h.status))
            (row_moved chess now input db a h) v)
          (rw e refl) (rw e refl)
    by_end (some o) e =
        IsConsistent-same _
          (end-IsConsistent db a.game.game.id a.game.game.version (row a.terminal)
            (λ x. unfold moved_row in refl) (row_moved chess now input db a h) v)
          (rw e refl) (rw e refl)
