-- ===== src/Gameplay/Refusal.antt =====
-- A move that is refused changes nothing (`submitMove` of prisma-gameplay.repository.ts).
use clu_chess.Base.{
  ◌≡◌, refl, Bool, true, false, Option, none, some, Option-cases, inl, inr, ok, err, arith, ℕ,
  Result, not,
}
use clu_chess.Base.Number.{ℤ}
use clu_chess.Game.{game_state_corrupt, GameDomainError, eq_color}
use clu_chess.Game.Clock.{GameClock, ClockAdmission}
use clu_chess.Game.Terminal.{TerminalOutcome}
use clu_chess.Chess.{
  ChessEngineErrorCode, illegal_move, invalid_initial_position, ChessEngine, MoveEvaluation,
}
use clu_chess.Store.Loading.{PersistedGame, load_game, player_for}
use clu_chess.Store.LockedClock.{locked_clock}
use clu_chess.Store.Rows.{Uuid, PlayerRow, GameRow, Database}
use clu_chess.Store.Tables.{find_game}
use clu_chess.Store.Tx.{
  ◌>>=◌, Body, bind, return_if, or_throw, or_return, Flow, next, returned, thrown,
}
use clu_chess.Lifecycle.Replay.{is_ok}
use clu_chess.Lifecycle.Resign.{create_command}
use clu_chess.Lifecycle.Settlement.{
  lock_game_clock_lem, lock_game_clock-none, load_game_self, update_game_row_lem,
}
use clu_chess.Gameplay.Effect.{SubmitMove, moved_row, admit, question, board_outcome, guest_pair}
use clu_chess.Gameplay.History.{create_move, moves_of}
use clu_chess.Gameplay.Submit.{
  reject, or_refuse, or_illegal, MoveResult, accepted, submit_move, submit_in_transaction,
  play_move, commit_move, guard_game,
}

abbrev fails : Flow MoveResult MoveResult → Bool
fails (returned (accepted _) _) = false
fails _ = true

-- The tables that the transaction leaves.
abbrev left_by : Database → Flow MoveResult MoveResult → Database
left_by db (next _ db') = db'
left_by db (returned _ db') = db'
left_by db (thrown _) = db

-- Statements that only read.
Reads : {A : Type 0} → Database → Flow MoveResult A → Type 0
Reads db (next _ db') = db' ≡ db
Reads db (returned _ db') = db' ≡ db
Reads db (thrown _) = Unit {0}

Keeps : Body MoveResult MoveResult → Database → Type 0
Keeps m db = fails (m db) ≡ true → left_by db (m db) ≡ db

bind-Keeps :
    {A : Type 0} (m : Body MoveResult A) (f : A → Body MoveResult MoveResult) (db : Database)
    → Reads db (m db)
    → ((a : A) → Keeps (f a) db)
    → Keeps (m >>= f) db
unfolding Reads Keeps
bind-Keeps {A = A} m f db = step (m db)
  where
    step :
        (flow : Flow MoveResult A)
        → Reads db flow
        → ((a : A) → Keeps (f a) db)
        → fails (bind flow f) ≡ true
        → left_by db (bind flow f) ≡ db
    step (next a db') same k = rw same (k a)
    step (returned r db') same k = λ _. same
    step (thrown e) same k = λ _. refl

or_refuse-Reads :
    (r : Result GameDomainError ClockAdmission) (v : ℕ) (db : Database)
    → Reads db (or_refuse r v db)
unfolding Reads
or_refuse-Reads (err _) v db = refl
or_refuse-Reads (ok (ClockAdmission.flag_fall _ _ _)) v db = refl
or_refuse-Reads (ok (ClockAdmission.accepted clock _)) v db = refl

or_illegal-Reads :
    (r : Result ChessEngineErrorCode MoveEvaluation) (v : ℕ) (db : Database)
    → Reads db (or_illegal r v db)
unfolding Reads
or_illegal-Reads (err illegal_move) v db = refl
or_illegal-Reads (err ChessEngineErrorCode.game_state_corrupt) v db = refl
or_illegal-Reads (err invalid_initial_position) v db = refl
or_illegal-Reads (ok e) v db = refl

return_if-Reads : (t : Bool) (r : MoveResult) (db : Database) → Reads db (return_if t r db)
unfolding Reads
return_if-Reads true r db = refl
return_if-Reads false r db = refl

or_throw-Reads : {E A : Type 0} (r : Result E A) (db : Database) → Reads db (or_throw r db)
unfolding Reads
or_throw-Reads (ok a) db = refl
or_throw-Reads (err e) db = tt

or_return-Reads :
    {A : Type 0} (o : Option A) (r : MoveResult) (db : Database) → Reads db (or_return o r db)
unfolding Reads
or_return-Reads none r db = refl
or_return-Reads (some a) r db = refl

commit_move_kept :
    (input : SubmitMove) (g : GameRow) (player : PlayerRow) (clock : GameClock) (e : MoveEvaluation)
    (o : Option TerminalOutcome) (now : ℤ) (guests : Uuid × Uuid) (db : Database)
    → find_game g.id db.games ≡ some g
    → Keeps (commit_move input g player.color clock e o now guests) db
unfolding Keeps commit_move create_move create_command
commit_move_kept input g player clock e o now guests db found = ground (
  arith,
  update_game_row_lem {R = MoveResult} g (moved_row player.color clock e o now) db found
      (unfold moved_row in refl),
)

play_move_kept :
    (chess : ChessEngine) (now : ℤ) (input : SubmitMove) (game : PersistedGame) (player : PlayerRow)
    (db : Database)
    → find_game game.game.id db.games ≡ some game.game
    → Keeps (play_move chess now input game player) db
unfolding play_move Keeps
play_move_kept chess now input game player db found =
    let g = game.game in
    let history = moves_of g.id db.moves in
    let corrupt = reject game_state_corrupt false (some g.version) in
    let admission = admit g player.color now in
    bind-Keeps (or_refuse admission g.version) _ db (or_refuse-Reads admission g.version db)
      (λ clock.
        let answer = chess.evaluate_move (question input g history) in
        bind-Keeps (or_illegal answer g.version) _ db (or_illegal-Reads answer g.version db) (λ e.
          let other = not (eq_color e.applied.color player.color) in
          bind-Keeps (return_if other corrupt) _ db (return_if-Reads other corrupt db) (λ _.
            let outcome = board_outcome e.game_over in
            bind-Keeps (or_throw outcome) _ db (or_throw-Reads outcome db) (λ o.
              let pair = guest_pair game.players in
              bind-Keeps (or_return pair corrupt) _ db (or_return-Reads pair corrupt db)
                (λ guests. commit_move_kept input g player clock e o now guests db found)))))

-- A move that is not answered with an acknowledgement, whatever the reason and the engine,
-- leaves all tables as they were.
pub submit_move_refused :
    (chess : ChessEngine) (now : ℤ) (input : SubmitMove) (db : Database)
    → is_ok (submit_move chess now input db).0 ≡ false
    → (submit_move chess now input db).1 ≡ db
unfolding submit_move submit_in_transaction guard_game Keeps locked_clock
submit_move_refused chess now input db = elim (Option-cases (load_game input.game_id db)) [
  | inl missing ↦ ground (arith, lock_game_clock-none input.game_id db now missing)
  | inr (game, h) ↦ elim (Option-cases (player_for game input.guest_session_id)) [
    | inl stranger ↦ ground (arith, lock_game_clock_lem input.game_id db game now h)
    | inr (player, m) ↦ ground (
      arith,
      lock_game_clock_lem input.game_id db game now h,
      play_move_kept chess now input game player db (load_game_self input.game_id db game h),
    )
  ]
]
