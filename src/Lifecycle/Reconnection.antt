-- ===== src/Lifecycle/Reconnection.antt =====
-- Leaving and coming back: `markDisconnected` and `markReconnected` of
-- prisma-game-lifecycle.repository.ts.
use mathlib.Core.List.{map-append}
use clu_chess.Base.{
  ◌+◌, ◌==◌, ◌≡◌, refl, sym, Bool, true, ◌&&◌, Option, none, some, List, [], ◌∷◌, map, ok, arith,
  if◌then◌else◌,
}
use clu_chess.Base.Number.{ℤ, ◌+ℤ◌}
use clu_chess.Game.{reconnecting, eq_status, in_progress}
use clu_chess.Store.Loading.{
  PersistedGame, load_game, find_assignment, player_for, players_of, is_first, is_second,
}
use clu_chess.Store.LockedClock.{is_live}
use clu_chess.Store.Rows.{Uuid, GameRow, PlayerRow, Database}
use clu_chess.Store.Tables.{find, filter, update_where, update_game, update_game_hit, find_game}
use clu_chess.Lifecycle.Adjudication.{locked_fields}
use clu_chess.Lifecycle.Connection.{
  PlayerDisconnected, PlayerReconnected, mark_disconnected, disconnect_in_transaction,
  mark_reconnected, reconnect_in_transaction, update_player, start_grace, end_grace,
  reconnecting_row, restored_row, other_deadlines,
}
use clu_chess.Lifecycle.Ending.{earliest}
use clu_chess.Lifecycle.Settlement.{
  load_game_self, lock_game_clock_lem, update_game_row_lem, load_game_row,
}

-- The tables with one game's row and one player's row changed.
unfoldable pub changed_tables :
    PersistedGame → PlayerRow → (GameRow → GameRow) → (PlayerRow → PlayerRow) → Database → Database
changed_tables game player f h db =
    let db' = update_player player.id h db in
    record db' { games = (update_game game.game.id game.game.version f db'.games).1 }

-- A first disconnection.
pub mark_disconnected_lem :
    (guest id : Uuid) (db : Database) (game : PersistedGame) (player : PlayerRow) (now grace : ℤ)
    → find_assignment guest db ≡ some (record { guest_session_id = guest; game_id = id })
    → load_game id db ≡ some game
    → player_for game guest ≡ some player
    → is_live game.game.status ≡ true
    → player.disconnected_at ≡ none
    → let deadline = now +ℤ grace in
      let first = earliest (deadline ∷ other_deadlines player game.players) in
      mark_disconnected now guest grace db ≡ (
        ok (
            some (record {
              color = player.color;
              game_id = game.game.id;
              game_version = game.game.version + 1;
              grace_deadline = deadline;
            })),
        changed_tables game player (reconnecting_row first) (start_grace now deadline) db,
      )
unfolding mark_disconnected disconnect_in_transaction changed_tables update_player
mark_disconnected_lem guest id db game player now grace a h m live connected =
    let first = earliest ((now +ℤ grace) ∷ other_deadlines player game.players) in
    ground (
      arith,
      lock_game_clock_lem id db game now h,
      locked_fields game.game now,
      update_game_row_lem {R = Option PlayerDisconnected} game.game (reconnecting_row first)
          (update_player player.id (start_grace now (now +ℤ grace)) db)
          (load_game_self id db game h) refl,
    )

-- A return.
pub mark_reconnected_lem :
    (guest id : Uuid) (db : Database) (game : PersistedGame) (player : PlayerRow) (now t : ℤ)
    → find_assignment guest db ≡ some (record { guest_session_id = guest; game_id = id })
    → load_game id db ≡ some game
    → player_for game guest ≡ some player
    → game.game.status ≡ reconnecting
    → player.disconnected_at ≡ some t
    → mark_reconnected now guest db ≡ (
      ok (
          some (record {
            color = player.color;
            game_id = game.game.id;
            game_version = game.game.version + 1;
          })),
      changed_tables game player
          (restored_row (other_deadlines player game.players))
          (end_grace now)
          db,
    )
unfolding mark_reconnected reconnect_in_transaction changed_tables update_player eq_status
mark_reconnected_lem guest id db game player now t a h m status gone =
    let remaining = other_deadlines player game.players in
    ground (
      arith,
      lock_game_clock_lem id db game now h,
      locked_fields game.game now,
      update_game_row_lem {R = Option PlayerReconnected} game.game (restored_row remaining)
          (update_player player.id (end_grace now) db) (load_game_self id db game h) refl,
    )

-- One player's row changed in a list of players.
abbrev change_player : Uuid → (PlayerRow → PlayerRow) → PlayerRow → PlayerRow
change_player id h p = if p.id == id then h p else p

filter-update :
    (t : PlayerRow → Bool) (id : Uuid) (h : PlayerRow → PlayerRow) (ps : List PlayerRow)
    → ((p : PlayerRow) → t (h p) ≡ t p)
    → filter t (update_where (λ p. p.id == id) h ps) ≡ map (change_player id h) (filter t ps)
filter-update t id h [] k = refl
filter-update t id h (p ∷ ps) k = ground (arith, k p, filter-update t id h ps k)

players_of-update :
    (game id : Uuid) (h : PlayerRow → PlayerRow) (ps : List PlayerRow)
    → ((p : PlayerRow) → ((h p).game_id ≡ p.game_id) × ((h p).slot ≡ p.slot))
    → players_of game (update_where (λ p. p.id == id) h ps)
      ≡ map (change_player id h) (players_of game ps)
unfolding players_of
players_of-update game id h ps k =
    rw
      (
        filter-update (λ p. (p.game_id == game) && is_first p.slot) id h ps
            (λ p. ground (arith, k p)),
        filter-update (λ p. (p.game_id == game) && is_second p.slot) id h ps
            (λ p. ground (arith, k p)),
      )
      (sym (
        map-append (change_player id h) (filter (λ p. (p.game_id == game) && is_first p.slot) ps)
          (filter (λ p. (p.game_id == game) && is_second p.slot) ps)))

change_found : Uuid → (PlayerRow → PlayerRow) → Option PlayerRow → Option PlayerRow
change_found id h none = none
change_found id h (some p) = some (change_player id h p)

find-change :
    (guest id : Uuid) (h : PlayerRow → PlayerRow) (ps : List PlayerRow)
    → ((p : PlayerRow) → (h p).guest_session_id ≡ p.guest_session_id)
    → find (λ p. p.guest_session_id == guest) (map (change_player id h) ps)
      ≡ change_found id h (find (λ p. p.guest_session_id == guest) ps)
unfolding change_found
find-change guest id h [] k = refl
find-change guest id h (p ∷ ps) k = ground (arith, k p, find-change guest id h ps k)

other_deadlines-change :
    (player : PlayerRow) (h : PlayerRow → PlayerRow) (ps : List PlayerRow)
    → ((p : PlayerRow) → (h p).id ≡ p.id)
    → other_deadlines player (map (change_player player.id h) ps) ≡ other_deadlines player ps
other_deadlines-change player h [] k = refl
other_deadlines-change player h (p ∷ ps) k =
    ground (arith, k p, other_deadlines-change player h ps k)

-- The tables after a player's loss of connection, loaded again.
load_game-changed_tables :
    (id : Uuid) (db : Database) (game : PersistedGame) (player : PlayerRow) (f : GameRow → GameRow)
    (h : PlayerRow → PlayerRow)
    → load_game id db ≡ some game
    → (f game.game).id ≡ game.game.id
    → ((p : PlayerRow) → ((h p).game_id ≡ p.game_id) × ((h p).slot ≡ p.slot))
    → load_game id (changed_tables game player f h db)
      ≡ some (record { game = f game.game; players = map (change_player player.id h) game.players })
unfolding load_game changed_tables update_player
load_game-changed_tables id db game player f h a same k =
    let (found, self, members) = load_game_row id db game a in
    ground (
      arith,
      (update_game_hit game.game.id f game.game db.games (load_game_self id db game a) same).1,
      players_of-update id player.id h db.players k,
    )

player_for-change :
    (guest : Uuid) (g : GameRow) (game : PersistedGame) (player : PlayerRow)
    (h : PlayerRow → PlayerRow)
    → player_for game guest ≡ some player
    → ((p : PlayerRow) → (h p).guest_session_id ≡ p.guest_session_id)
    → player_for (record { game = g; players = map (change_player player.id h) game.players }) guest
      ≡ some (h player)
unfolding player_for change_found
player_for-change guest g game player h m k =
    ground (arith, find-change guest player.id h game.players k)

-- A connected player of a game in progress whose opponent has no grace running, who disconnects
-- and reconnects at any times, leaves the game's row as it was, but for a version that is
-- greater by two and a reconnection deadline that is cleared.
pub mark_reconnected-mark_disconnected :
    (guest id : Uuid) (db : Database) (game : PersistedGame) (player : PlayerRow)
    (now later grace : ℤ)
    → find_assignment guest db ≡ some (record { guest_session_id = guest; game_id = id })
    → load_game id db ≡ some game
    → player_for game guest ≡ some player
    → game.game.status ≡ in_progress
    → player.disconnected_at ≡ none
    → other_deadlines player game.players ≡ []
    → let db' = (mark_disconnected now guest grace db).1 in
      let (answer, db'') = mark_reconnected later guest db' in
      (answer
        ≡ ok (
            some (record {
              color = player.color;
              game_id = game.game.id;
              game_version = game.game.version + 2;
            })))
      × (find_game game.game.id db''.games
          ≡ some
              (record game.game { reconnect_deadline_at = none; version = game.game.version + 2 }))
unfolding is_live changed_tables update_player find_assignment
mark_reconnected-mark_disconnected guest id db game player now later grace a h m playing here
      alone =
    let deadline = now +ℤ grace in
    let away = start_grace now deadline in
    let row = reconnecting_row (earliest (deadline ∷ other_deadlines player game.players)) in
    let left = changed_tables game player row away db in
    let game' : PersistedGame = record {
      game = row game.game;
      players = map (change_player player.id away) game.players;
    } in
    let h' : load_game id left ≡ some game' =
      load_game-changed_tables id db game player row away h refl (λ p. (refl, refl)) in
    let m' = player_for-change guest (row game.game) game player away m (λ p. refl) in
    ground (
      arith,
      mark_disconnected_lem guest id db game player now grace a h m (ground arith) here,
      mark_reconnected_lem guest id left game' (away player) later now a h' m' refl refl,
      (load_game_row id left game' h'),
      other_deadlines-change player away game.players (λ p. refl),
      update_game_hit game.game.id (restored_row (other_deadlines (away player) game'.players))
          game'.game left.games (load_game_self id left game' h') refl,
    )
