-- ===== src/Lifecycle/Connection.antt =====
-- `markDisconnected` and `markReconnected` of prisma-game-lifecycle.repository.ts.
use clu_chess.Base.{ℕ, ◌+◌, ◌==◌, not, Option, none, some, List, ◌∷◌, map, Result, if◌then◌else◌}
use clu_chess.Base.Number.{ℤ, ◌+ℤ◌}
use clu_chess.Game.{
  GameStatus, waiting_for_players, in_progress, reconnecting, PlayerColor, eq_status,
}
use clu_chess.Store.Loading.{load_game, lock_game_clock, find_assignment, player_for}
use clu_chess.Store.LockedClock.{is_live}
use clu_chess.Store.Rows.{Uuid, GameRow, PlayerRow, Database}
use clu_chess.Store.Tables.{filter, update_where}
use clu_chess.Store.Tx.{
  Body, DatabaseErrorKind, ◌>>=◌, ◌>>◌, return, return_if, or_return, gets, modify, run_transaction,
}
use clu_chess.Lifecycle.Ending.{earliest, is_set, set_times, is_empty}
use clu_chess.Lifecycle.Finalize.{update_game_row}

pub record PlayerDisconnected : Type 0 where
  pub color : PlayerColor
  pub game_id : Uuid
  pub game_version : ℕ
  pub grace_deadline : ℤ

pub record PlayerReconnected : Type 0 where
  pub color : PlayerColor
  pub game_id : Uuid
  pub game_version : ℕ

-- `gamePlayer.update({ where: { id } })`.
unfoldable pub update_player : Uuid → (PlayerRow → PlayerRow) → Database → Database
update_player id f db = record db { players = update_where (λ p. p.id == id) f db.players }

-- The grace deadlines of the other players.
abbrev pub other_deadlines : PlayerRow → List PlayerRow → List ℤ
other_deadlines player ps =
    set_times (map (λ p. p.reconnect_grace_ends_at) (filter (λ p. not (p.id == player.id)) ps))

-- A waiting player that leaves is no longer connected; nothing else happens.
abbrev pub note_waiting : GameStatus → PlayerRow → Database → Database
note_waiting status player db =
    if eq_status status waiting_for_players
    then update_player player.id (λ p. record p { connected_at = none }) db
    else db

-- `return null` after `note_waiting`, for a game that is not being played.
abbrev return_unless_live : GameStatus → PlayerRow → Body (Option PlayerDisconnected) (Unit {0})
return_unless_live status player =
    if is_live status then gets (λ _. tt) else do modify (note_waiting status player); return none

abbrev pub start_grace : ℤ → ℤ → PlayerRow → PlayerRow
start_grace now deadline p = record p {
  connected_at = none;
  disconnected_at = some now;
  reconnect_grace_ends_at = some deadline;
}

abbrev pub reconnecting_row : Option ℤ → GameRow → GameRow
reconnecting_row deadline g = record g {
  reconnect_deadline_at = deadline;
  status = reconnecting;
  version = g.version + 1;
}

unfoldable pub disconnect_in_transaction :
    ℤ → Uuid → ℤ → Body (Option PlayerDisconnected) (Option PlayerDisconnected)
disconnect_in_transaction now guest grace_ms = do
  found ← gets (find_assignment guest)
  assignment ← or_return found none
  row ← gets (lock_game_clock now assignment.game_id)
  locked ← or_return row none
  loaded ← gets (load_game assignment.game_id)
  game ← or_return loaded none
  player ← or_return (player_for game guest) none
  return_unless_live game.game.status player
  return_if (is_set player.disconnected_at) none
  let deadline = locked.observed_at +ℤ grace_ms
  let first = earliest (deadline ∷ other_deadlines player game.players)
  modify (update_player player.id (start_grace locked.observed_at deadline))
  count ← update_game_row game.game.id game.game.version (reconnecting_row first)
  return_if (not (count == 1)) none
  return (
      some (record {
        color = player.color;
        game_id = game.game.id;
        game_version = game.game.version + 1;
        grace_deadline = deadline;
      }))

unfoldable pub mark_disconnected :
    ℤ → Uuid → ℤ → Database → Result DatabaseErrorKind (Option PlayerDisconnected) × Database
mark_disconnected now guest grace_ms =
    run_transaction (disconnect_in_transaction now guest grace_ms)

abbrev pub end_grace : ℤ → PlayerRow → PlayerRow
end_grace now p = record p {
  connected_at = some now;
  disconnected_at = none;
  reconnect_grace_ends_at = none;
}

abbrev pub restored_row : List ℤ → GameRow → GameRow
restored_row remaining g = record g {
  reconnect_deadline_at = if is_empty remaining then none else earliest remaining;
  status = if is_empty remaining then in_progress else reconnecting;
  version = g.version + 1;
}

unfoldable pub reconnect_in_transaction :
    ℤ → Uuid → Body (Option PlayerReconnected) (Option PlayerReconnected)
reconnect_in_transaction now guest = do
  found ← gets (find_assignment guest)
  assignment ← or_return found none
  row ← gets (lock_game_clock now assignment.game_id)
  locked ← or_return row none
  loaded ← gets (load_game assignment.game_id)
  game ← or_return loaded none
  return_if (not (eq_status game.game.status reconnecting)) none
  player ← or_return (player_for game guest) none
  return_if (not (is_set player.disconnected_at)) none
  modify (update_player player.id (end_grace locked.observed_at))
  let remaining = other_deadlines player game.players
  count ← update_game_row game.game.id game.game.version (restored_row remaining)
  return_if (not (count == 1)) none
  return (
      some (record {
        color = player.color;
        game_id = game.game.id;
        game_version = game.game.version + 1;
      }))

unfoldable pub mark_reconnected :
    ℤ → Uuid → Database → Result DatabaseErrorKind (Option PlayerReconnected) × Database
mark_reconnected now guest = run_transaction (reconnect_in_transaction now guest)
