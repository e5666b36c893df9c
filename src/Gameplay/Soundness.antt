-- ===== src/Gameplay/Soundness.antt =====
-- A move is accepted only if it is playable (`submitMove` of prisma-gameplay.repository.ts).
use clu_chess.Base.{
  ◌==◌, inl, inr, Option-cases, any, ◌⊎◌, none, some, ℕ, ◌≡◌, refl, Bool, true, false, not, Option,
  Result, ok, err, arith,
}
use clu_chess.Base.Number.{ℤ}
use clu_chess.Game.{
  eq_status, in_progress, ready, GameDomainError, eq_color, game_state_corrupt, PlayerColor,
}
use clu_chess.Game.Clock.{GameClock, ClockAdmission}
use clu_chess.Game.Terminal.{TerminalOutcome}
use clu_chess.Chess.{
  ChessEngine, ChessEngineErrorCode, MoveEvaluation, illegal_move, invalid_initial_position,
}
use clu_chess.Store.Loading.{load_game, player_for, find_command, PersistedGame}
use clu_chess.Store.LockedClock.{locked_clock}
use clu_chess.Store.Rows.{GameRow, MoveSubmission, CommandRow, Uuid, PlayerRow, Database}
use clu_chess.Store.Tables.{find_game}
use clu_chess.Store.Tx.{
  settle, Body, Flow, returned, bind, return_if, or_throw, or_return, next, thrown,
}
use clu_chess.Lifecycle.Settlement.{
  lock_game_clock_lem, update_game_row_lem, lock_game_clock-none, load_game_self,
}
use clu_chess.Gameplay.Acceptance.{Attempt, IsPlayable}
use clu_chess.Gameplay.Effect.{
  SubmitMove, moved_row, played_move, admit, board_outcome, guest_pair, question,
}
use clu_chess.Gameplay.History.{has_contiguous_history, create_move, same_move, moves_of}
use clu_chess.Gameplay.Submit.{
  submit_move, replay_result, conclude, submit_in_transaction, guard_game, MoveResult, accepted,
  play_move, commit_move, or_refuse, or_illegal, reject,
}

-- The body has gone through to its end.
unfoldable pub accepts : Flow MoveResult MoveResult → Bool
accepts (returned (accepted _) _) = true
accepts (next (accepted _) _) = true
accepts _ = false

or_refuse_inv :
    (r : Result GameDomainError ClockAdmission) (v : ℕ) (db : Database)
    (f : GameClock → Body MoveResult MoveResult)
    → accepts (bind (or_refuse r v db) f) ≡ true
    → (c : GameClock) × (e : ℤ) × (r ≡ ok (ClockAdmission.accepted c e)) × (accepts (f c db) ≡ true)
unfolding accepts
or_refuse_inv (err _) v db f h = cc
or_refuse_inv (ok (ClockAdmission.flag_fall _ _ _)) v db f h = cc
or_refuse_inv (ok (ClockAdmission.accepted c e)) v db f h = (c, e, refl, h)

or_illegal_inv :
    (r : Result ChessEngineErrorCode MoveEvaluation) (v : ℕ) (db : Database)
    (f : MoveEvaluation → Body MoveResult MoveResult)
    → accepts (bind (or_illegal r v db) f) ≡ true
    → (e : MoveEvaluation) × (r ≡ ok e) × (accepts (f e db) ≡ true)
unfolding accepts
or_illegal_inv (err illegal_move) v db f h = cc
or_illegal_inv (err ChessEngineErrorCode.game_state_corrupt) v db f h = cc
or_illegal_inv (err invalid_initial_position) v db f h = cc
or_illegal_inv (ok e) v db f h = (e, refl, h)

or_throw_inv :
    {E A : Type 0} (r : Result E A) (db : Database) (f : A → Body MoveResult MoveResult)
    → accepts (bind (or_throw r db) f) ≡ true
    → (a : A) × (r ≡ ok a) × (accepts (f a db) ≡ true)
unfolding accepts
or_throw_inv (err _) db f h = cc
or_throw_inv (ok a) db f h = (a, refl, h)

or_reject_inv :
    {A : Type 0} (o : Option A) (code : _) (retry : Bool) (v : Option ℕ) (db : Database)
    (f : A → Body MoveResult MoveResult)
    → accepts (bind (or_return o (reject code retry v) db) f) ≡ true
    → (a : A) × (o ≡ some a) × (accepts (f a db) ≡ true)
unfolding accepts
or_reject_inv none code retry v db f h = cc
or_reject_inv (some a) code retry v db f h = (a, refl, h)

reject_if_inv :
    (t : Bool) (code : _) (retry : Bool) (v : Option ℕ) (db : Database)
    (f : Unit {0} → Body MoveResult MoveResult)
    → accepts (bind (return_if t (reject code retry v) db) f) ≡ true
    → (t ≡ false) × (accepts (f tt db) ≡ true)
unfolding accepts
reject_if_inv true code retry v db f h = cc
reject_if_inv false code retry v db f h = (refl, h)

-- What `play_move` has found when it accepts.
play_move_inv :
    (chess : ChessEngine) (now : ℤ) (input : SubmitMove) (game : PersistedGame) (player : PlayerRow)
    (db : Database)
    → accepts (play_move chess now input game player db) ≡ true
    → (c : GameClock) × (e : ℤ) × (v : MoveEvaluation) × (o : Option TerminalOutcome)
      × (guests : Uuid × Uuid) × (admit game.game player.color now
          ≡ ok (ClockAdmission.accepted c e))
      × (chess.evaluate_move (question input game.game (moves_of game.game.id db.moves)) ≡ ok v)
      × (eq_color v.applied.color player.color ≡ true)
      × (board_outcome v.game_over ≡ ok o)
      × (guest_pair game.players ≡ some guests)
      × (accepts (commit_move input game.game player.color c v o now guests db) ≡ true)
unfolding play_move
play_move_inv chess now input game player db h =
    let g = game.game in
    let version = some g.version in
    let history = moves_of g.id db.moves in
    let (c, e, in_time, h1) = or_refuse_inv (admit g player.color now) g.version db _ h in
    let (v, legal, h2) =
      or_illegal_inv (chess.evaluate_move (question input g history)) g.version db _ h1 in
    let other = not (eq_color v.applied.color player.color) in
    let (same, h3) = reject_if_inv other game_state_corrupt false version db _ h2 in
    let (o, outcome, h4) = or_throw_inv (board_outcome v.game_over) db _ h3 in
    let (guests, two, h5) =
      or_reject_inv (guest_pair game.players) game_state_corrupt false version db _ h4 in
    (c, e, v, o, guests, in_time, legal, ground (arith, same), outcome, two, h5)

guard_game_inv :
    (input : SubmitMove) (g : GameRow) (mover : PlayerColor) (db : Database)
    (f : Unit {0} → Body MoveResult MoveResult)
    → accepts (bind (guard_game input g mover db) f) ≡ true
    → ((g.status ≡ in_progress) ⊎ (g.status ≡ ready))
      × (g.turn_color ≡ mover)
      × (input.expected_version ≡ g.version)
      × (has_contiguous_history (moves_of g.id db.moves) ≡ true)
      × (accepts (f tt db) ≡ true)
unfolding accepts guard_game eq_status eq_color
guard_game_inv input g mover db f h =
    (ground arith, ground arith, ground arith, ground arith, ground arith)

commit_move_inv :
    (input : SubmitMove) (g : GameRow) (mover : PlayerColor) (c : GameClock) (v : MoveEvaluation)
    (o : Option TerminalOutcome) (now : ℤ) (guests : Uuid × Uuid) (db : Database)
    → find_game g.id db.games ≡ some g
    → accepts (commit_move input g mover c v o now guests db) ≡ true
    → ((v.applied.ply_number == 0) ≡ false)
      × (any (same_move (played_move input mover v now)) db.moves ≡ false)
unfolding accepts commit_move create_move played_move
commit_move_inv input g mover c v o now guests db found h =
    let updated =
      update_game_row_lem {R = MoveResult} g (moved_row mover c v o now) db found
        (unfold moved_row in refl) in
    (ground (arith, updated), ground (arith, updated))

-- An answer that is no duplicate comes from the transaction.
settled_inv :
    (input : SubmitMove) (flow : Flow MoveResult MoveResult) (db : Database) (s : MoveSubmission)
    → (conclude input (settle db flow)).0 ≡ ok s
    → s.duplicate ≡ false
    → accepts flow ≡ true
unfolding accepts replay_result
settled_inv input (next r d) db s h new = ground arith
settled_inv input (returned r d) db s h new = ground arith
settled_inv input (thrown e) db s h new = ground arith

guarded :
    (chess : ChessEngine) (now : ℤ) (input : SubmitMove) (db : Database) (game : PersistedGame)
    (player : PlayerRow)
    → load_game input.game_id db ≡ some game
    → player_for game input.guest_session_id ≡ some player
    → find_command input.game_id input.client_move_id db ≡ none
    → submit_in_transaction chess now input db
      ≡ bind
          (guard_game input game.game player.color db)
          (λ _. play_move chess now input game player)
unfolding submit_in_transaction locked_clock
guarded chess now input db game player h m fresh =
    ground (arith, lock_game_clock_lem input.game_id db game now h)

same_color : (c d : PlayerColor) → eq_color c d ≡ true → c ≡ d
unfolding eq_color
same_color c d h = ground arith

-- The inversion of the whole transaction.
pub playable :
    (chess : ChessEngine) (now : ℤ) (input : SubmitMove) (db : Database) (game : PersistedGame)
    (player : PlayerRow)
    → load_game input.game_id db ≡ some game
    → player_for game input.guest_session_id ≡ some player
    → find_command input.game_id input.client_move_id db ≡ none
    → accepts (submit_in_transaction chess now input db) ≡ true
    → (a : Attempt) × IsPlayable chess now input db a
playable chess now input db game player h m fresh through =
    let passed = rw (guarded chess now input db game player h m fresh) at through in
    let (status, turn, version, history, h1) =
      guard_game_inv input game.game player.color db (λ _. play_move chess now input game player)
        passed in
    let (c, e, v, o, guests, in_time, legal, color, outcome, two, h2) =
      play_move_inv chess now input game player db h1 in
    (
      record {
        game = game;
        player = player;
        clock = c;
        elapsed = e;
        evaluation = v;
        terminal = o;
        guests = guests;
      },
      record {
        loaded = h;
        member = m;
        fresh = fresh;
        status = status;
        turn = turn;
        version = version;
        history = history;
        in_time = in_time;
        legal = legal;
        color = same_color _ _ color;
        outcome = outcome;
        guests = two;
        numbered =
            (commit_move_inv input game.game player.color c v o now guests db
              (load_game_self input.game_id db game h) h2).0;
        unplayed =
            (commit_move_inv input game.game player.color c v o now guests db
              (load_game_self input.game_id db game h) h2).1;
      },
    )

-- Without a game, a player, or with a command, nothing is accepted anew.
unfounded :
    (chess : ChessEngine) (now : ℤ) (input : SubmitMove) (db : Database) (s : MoveSubmission)
    → load_game input.game_id db ≡ none
    → (submit_move chess now input db).0 ≡ ok s
    → ⊥
unfolding submit_move submit_in_transaction
unfounded chess now input db s missing h =
    ground (arith, lock_game_clock-none input.game_id db now missing)

foreign :
    (chess : ChessEngine) (now : ℤ) (input : SubmitMove) (db : Database) (game : PersistedGame)
    (s : MoveSubmission)
    → load_game input.game_id db ≡ some game
    → player_for game input.guest_session_id ≡ none
    → (submit_move chess now input db).0 ≡ ok s
    → ⊥
unfolding submit_move submit_in_transaction
foreign chess now input db game s found stranger h =
    ground (arith, lock_game_clock_lem input.game_id db game now found)

repeated :
    (chess : ChessEngine) (now : ℤ) (input : SubmitMove) (db : Database) (game : PersistedGame)
    (player : PlayerRow) (c : CommandRow) (s : MoveSubmission)
    → load_game input.game_id db ≡ some game
    → player_for game input.guest_session_id ≡ some player
    → find_command input.game_id input.client_move_id db ≡ some c
    → (submit_move chess now input db).0 ≡ ok s
    → s.duplicate ≡ false
    → ⊥
unfolding submit_move submit_in_transaction replay_result
repeated chess now input db game player c s found member stored h new =
    ground (arith, lock_game_clock_lem input.game_id db game now found)

-- A move that is answered with an acknowledgement that is no duplicate is playable: its game is
-- IN_PROGRESS or READY, it is the player's turn, the expected version is the game's, the
-- history is contiguous, the clock admits it, the engine evaluates it for the player's color,
-- its ply is not 0, and neither its client id nor its ply has been used.
pub submit_move-IsPlayable :
    (chess : ChessEngine) (now : ℤ) (input : SubmitMove) (db : Database) (s : MoveSubmission)
    → (submit_move chess now input db).0 ≡ ok s
    → s.duplicate ≡ false
    → (a : Attempt) × IsPlayable chess now input db a
submit_move-IsPlayable chess now input db s h new =
    elim (Option-cases (load_game input.game_id db)) [
      | inl missing ↦ elim (unfounded chess now input db s missing h) [ ]
      | inr (game, found) ↦ elim (Option-cases (player_for game input.guest_session_id)) [
        | inl stranger ↦ elim (foreign chess now input db game s found stranger h) [ ]
        | inr (player, member) ↦
            elim (Option-cases (find_command input.game_id input.client_move_id db)) [
              | inl fresh ↦ playable chess now input db game player found member fresh (
                  settled_inv input (submit_in_transaction chess now input db) db s
                    (unfold submit_move in h) new)
              | inr (c, stored) ↦
                  elim (repeated chess now input db game player c s found member stored h new) [ ]
            ]
      ]
    ]
