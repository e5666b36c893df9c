-- ===== src/Gameplay/Requests.antt =====
-- Every request to `submitMove` of prisma-gameplay.repository.ts, whatever comes of it.
use clu_chess.Base.{◌≡◌, ◌⊎◌, inl, inr, false, none, some, Option-cases, Bool-cases, ok, arith}
use clu_chess.Base.Number.{ℤ}
use clu_chess.Chess.{ChessEngine}
use clu_chess.Store.Loading.{PersistedGame, load_game, find_command, player_for}
use clu_chess.Store.Rows.{PlayerRow, CommandRow, Database}
use clu_chess.Store.Tx.{Flow, next, returned, thrown, settle}
use clu_chess.Lifecycle.Replay.{is_ok}
use clu_chess.Lifecycle.Settlement.{lock_game_clock_lem, lock_game_clock-none}
use clu_chess.Gameplay.Acceptance.{Attempt, IsPlayable, submit_move_lem, moved_tables}
use clu_chess.Gameplay.Effect.{SubmitMove}
use clu_chess.Gameplay.Refusal.{submit_move_refused}
use clu_chess.Gameplay.Replay.{move_answer}
use clu_chess.Gameplay.Soundness.{playable, accepts}
use clu_chess.Gameplay.Submit.{
  MoveResult, submit_move, submit_in_transaction, replay_result, conclude,
}

-- The two ends of a request.
abbrev Ends : ChessEngine → ℤ → SubmitMove → Database → Type 0
Ends chess now input db =
    ((submit_move chess now input db).1 ≡ db)
    ⊎ ((a : Attempt) × IsPlayable chess now input db a
        × (submit_move chess now input db
            ≡ (ok (move_answer now input a), moved_tables now input a db)))

-- With no command stored, an answer comes from a body that accepts.
unaccepted :
    (input : SubmitMove) (flow : Flow MoveResult MoveResult) (db : Database)
    → find_command input.game_id input.client_move_id db ≡ none
    → accepts flow ≡ false
    → is_ok (conclude input (settle db flow)).0 ≡ false
unfolding accepts
unaccepted input (next r d) db fresh h = ground arith
unaccepted input (returned r d) db fresh h = ground arith
unaccepted input (thrown e) db fresh h = ground arith

missing_kept :
    (chess : ChessEngine) (now : ℤ) (input : SubmitMove) (db : Database)
    → load_game input.game_id db ≡ none
    → (submit_move chess now input db).1 ≡ db
unfolding submit_move submit_in_transaction
missing_kept chess now input db missing =
    ground (arith, lock_game_clock-none input.game_id db now missing)

stranger_kept :
    (chess : ChessEngine) (now : ℤ) (input : SubmitMove) (db : Database) (game : PersistedGame)
    → load_game input.game_id db ≡ some game
    → player_for game input.guest_session_id ≡ none
    → (submit_move chess now input db).1 ≡ db
unfolding submit_move submit_in_transaction
stranger_kept chess now input db game found stranger =
    ground (arith, lock_game_clock_lem input.game_id db game now found)

repeat_kept :
    (chess : ChessEngine) (now : ℤ) (input : SubmitMove) (db : Database) (game : PersistedGame)
    (player : PlayerRow) (c : CommandRow)
    → load_game input.game_id db ≡ some game
    → player_for game input.guest_session_id ≡ some player
    → find_command input.game_id input.client_move_id db ≡ some c
    → (submit_move chess now input db).1 ≡ db
unfolding submit_move submit_in_transaction replay_result
repeat_kept chess now input db game player c found member stored =
    ground (arith, lock_game_clock_lem input.game_id db game now found)

fresh_cases :
    (chess : ChessEngine) (now : ℤ) (input : SubmitMove) (db : Database) (game : PersistedGame)
    (player : PlayerRow)
    → load_game input.game_id db ≡ some game
    → player_for game input.guest_session_id ≡ some player
    → find_command input.game_id input.client_move_id db ≡ none
    → Ends chess now input db
fresh_cases chess now input db game player found member fresh =
    elim (Bool-cases (accepts (submit_in_transaction chess now input db))) [
      | inl through ↦
          let (a, h) = playable chess now input db game player found member fresh through in
          inr (a, h, submit_move_lem chess now input db a h)
      | inr refused ↦ inl (
          submit_move_refused chess now input db (
            unfold submit_move in
            unaccepted input (submit_in_transaction chess now input db) db fresh refused))
    ]

-- Every request to make a move, with any engine, at any moment and on any tables, either leaves
-- the tables as they were or is playable: then it is answered with the acknowledgement of its
-- attempt, and the tables are those of `moved_tables`.
pub submit_move_cases :
    (chess : ChessEngine) (now : ℤ) (input : SubmitMove) (db : Database)
    → ((submit_move chess now input db).1 ≡ db)
      ⊎ ((a : Attempt) × IsPlayable chess now input db a
          × (submit_move chess now input db
              ≡ (ok (move_answer now input a), moved_tables now input a db)))
submit_move_cases chess now input db = elim (Option-cases (load_game input.game_id db)) [
  | inl missing ↦ inl (missing_kept chess now input db missing)
  | inr (game, found) ↦ elim (Option-cases (player_for game input.guest_session_id)) [
    | inl stranger ↦ inl (stranger_kept chess now input db game found stranger)
    | inr (player, member) ↦
        elim (Option-cases (find_command input.game_id input.client_move_id db)) [
          | inl fresh ↦ fresh_cases chess now input db game player found member fresh
          | inr (c, stored) ↦ inl (repeat_kept chess now input db game player c found member stored)
        ]
  ]
]
