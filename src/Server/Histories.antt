-- ===== src/Server/Histories.antt =====
-- Histories of the server: operations one after the other, each with the time that it observes.
use clu_chess.Base.{false, ◌≡◌, some, refl, inl, inr, true, List, [], ◌∷◌}
use clu_chess.Base.Number.{ℤ}
use clu_chess.Game.StateMachine.Runs.{is_terminal}
use clu_chess.Chess.{ChessEngine}
use clu_chess.Store.Rows.{GameRow, Uuid, Database}
use clu_chess.Store.Seats.{is_seated, IsAllocated, one_open_game}
use clu_chess.Store.Soundness.{IsConsistent}
use clu_chess.Store.Tables.{find_game}
use clu_chess.Lifecycle.Connection.{mark_disconnected, mark_reconnected}
use clu_chess.Lifecycle.Ending.{
  adjudicate_timeout, adjudicate_no_show, adjudicate_abandonment, terminate_for_reset,
}
use clu_chess.Lifecycle.Resign.{ResignGame, resign}
use clu_chess.Gameplay.Effect.{SubmitMove}
use clu_chess.Gameplay.Submit.{submit_move}
use clu_chess.Allocation.Allocate.{allocate}
use clu_chess.Allocation.Ready.{mark_ready}
use clu_chess.Allocation.Records.{AllocateGame, MarkGameReady}
use clu_chess.Allocation.Start.{start_if_ready}
use clu_chess.Server.Commands.{Proceeds-resign, Proceeds-terminate_for_reset}
use clu_chess.Server.Connections.{Proceeds-mark_disconnected, Proceeds-mark_reconnected}
use clu_chess.Server.Endings.{
  Proceeds-adjudicate_timeout, Proceeds-adjudicate_no_show, Proceeds-adjudicate_abandonment,
}
use clu_chess.Server.Moves.{Proceeds-submit_move}
use clu_chess.Server.Openings.{Proceeds-allocate, Proceeds-mark_ready, Proceeds-start_if_ready}
use clu_chess.Server.Progress.{Proceeds, Follows, Follows-trans, Proceeds-row}

pub data Operation : Type 0 where
  moves : SubmitMove → Operation
  resigns : ResignGame → Operation
  resets : Uuid → Operation
  disconnects : Uuid → ℤ → Operation
  reconnects : Uuid → Operation
  times_out : Uuid → Operation
  expires : Uuid → Operation
  abandons : Uuid → List Uuid → Operation
  allocates : Uuid × Uuid → AllocateGame → Operation
  readies : MarkGameReady → Operation
  starts : Uuid → Operation

module _ (chess : ChessEngine) where
  -- The tables after an operation at a moment.
  unfoldable pub apply : ℤ → Operation → Database → Database
  apply now (moves input) db = (submit_move chess now input db).1
  apply now (resigns input) db = (resign now input db).1
  apply now (resets guest) db = (terminate_for_reset now guest db).1
  apply now (disconnects guest grace) db = (mark_disconnected now guest grace db).1
  apply now (reconnects guest) db = (mark_reconnected now guest db).1
  apply now (times_out id) db = (adjudicate_timeout now id db).1
  apply now (expires id) db = (adjudicate_no_show now id db).1
  apply now (abandons id absent) db = (adjudicate_abandonment now id absent db).1
  apply now (allocates fresh input) db = (allocate fresh input db).1
  apply now (readies input) db = (mark_ready input db).1
  apply now (starts id) db = (start_if_ready now id db).1

  unfoldable pub run : List (ℤ × Operation) → Database → Database
  run [] db = db
  run ((now, operation) ∷ later) db = run later (apply now operation db)

  Proceeds-apply :
      (now : ℤ) (operation : Operation) (db : Database) → Proceeds db (apply now operation db)
  unfolding apply
  Proceeds-apply now (moves input) db = Proceeds-submit_move chess now input db
  Proceeds-apply now (resigns input) db = Proceeds-resign db now input
  Proceeds-apply now (resets guest) db = Proceeds-terminate_for_reset guest db now
  Proceeds-apply now (disconnects guest grace) db = Proceeds-mark_disconnected guest db now grace
  Proceeds-apply now (reconnects guest) db = Proceeds-mark_reconnected guest db now
  Proceeds-apply now (times_out id) db = Proceeds-adjudicate_timeout id db now
  Proceeds-apply now (expires id) db = Proceeds-adjudicate_no_show id db now
  Proceeds-apply now (abandons id absent) db = Proceeds-adjudicate_abandonment id absent db now
  Proceeds-apply now (allocates fresh input) db = Proceeds-allocate fresh input db
  Proceeds-apply now (readies input) db = Proceeds-mark_ready input db
  Proceeds-apply now (starts id) db = Proceeds-start_if_ready now id db

  -- Any sequence of allocations, requests to be ready and to start, moves, resignations,
  -- resets, disconnections, reconnections and adjudications, at any moments, with any arguments
  -- and any engine, leaves consistent tables consistent: every game row satisfies the
  -- constraints of the schema on terminal states, on the running clock and on the clocks'
  -- signs, and a game that has ended has no active assignment.
  pub run-IsConsistent :
      (history : List (ℤ × Operation)) (db : Database)
      → IsConsistent db
      → IsConsistent (run history db)
  unfolding run
  run-IsConsistent [] db v = v
  run-IsConsistent ((now, operation) ∷ later) db v =
      run-IsConsistent later (apply now operation db)
        ((Proceeds-apply now operation db).consistent v)

  run-IsAllocated :
      (history : List (ℤ × Operation)) (db : Database)
      → IsAllocated db
      → IsAllocated (run history db)
  unfolding run
  run-IsAllocated [] db v = v
  run-IsAllocated ((now, operation) ∷ later) db v =
      run-IsAllocated later (apply now operation db) ((Proceeds-apply now operation db).allocated v)

  -- From tables where every player's game is stored and the players of every game that has not
  -- ended are assigned to it, any sequence of allocations, requests to be ready and to start,
  -- moves, resignations, resets, disconnections, reconnections and adjudications leads to
  -- tables where a guest is a player of at most one game that has not ended.
  pub run-one_open_game :
      (history : List (ℤ × Operation)) (db : Database)
      → IsAllocated db
      → let after = run history db in
        (id other guest : Uuid) (g g' : GameRow)
        → is_seated id guest after.players ≡ true
        → is_seated other guest after.players ≡ true
        → find_game id after.games ≡ some g
        → find_game other after.games ≡ some g'
        → is_terminal g.status ≡ false
        → is_terminal g'.status ≡ false
        → id ≡ other
  run-one_open_game history db v id other guest g g' =
      one_open_game (run history db) id other guest g g' (run-IsAllocated history db v)

  -- After any sequence of allocations, requests to be ready and to start, moves, resignations,
  -- resets, disconnections, reconnections and adjudications a game that the tables held is
  -- still found, and its row is either unchanged, or has a greater version and belongs to a
  -- game that had not ended.
  pub run-Follows :
      (history : List (ℤ × Operation)) (db : Database) (id : Uuid) (g : GameRow)
      → find_game id db.games ≡ some g
      → (g' : GameRow) × (find_game id (run history db).games ≡ some g') × Follows g g'
  unfolding run
  run-Follows [] db id g h = (g, h, inl refl)
  run-Follows ((now, operation) ∷ later) db id g h =
      let (g', h', step) =
        Proceeds-row db (apply now operation db) (Proceeds-apply now operation db) id g h in
      let (g'', h'', steps) = run-Follows later (apply now operation db) id g' h' in
      (g'', h'', Follows-trans g g' g'' step steps)

  -- No sequence of allocations, requests to be ready and to start, moves, resignations, resets,
  -- disconnections, reconnections and adjudications changes the row of a game that has ended.
  pub run_final :
      (history : List (ℤ × Operation)) (db : Database) (id : Uuid) (g : GameRow)
      → find_game id db.games ≡ some g
      → is_terminal g.status ≡ true
      → find_game id (run history db).games ≡ some g
  run_final history db id g h ended =
      let (g', found, steps) = run-Follows history db id g h in
      elim steps [ inl same ↦ rw same at found | inr (open_end, _) ↦ cc ]
