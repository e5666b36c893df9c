-- ===== src/Server/Connections.antt =====
-- What leaving and coming back leave: `markDisconnected` and `markReconnected` of
-- prisma-game-lifecycle.repository.ts.
use mathlib.Core.Path.{subst}
use clu_chess.Base.{
  ◌==◌, ◌<◌, inl, inr, false, ◌≡◌, refl, sym, ◌⊎◌, true, Option, some, List, ◌∷◌, arith,
  Option-cases, none,
}
use clu_chess.Base.Number.{ℤ, ◌+ℤ◌}
use clu_chess.Game.{reconnecting, eq_status}
use clu_chess.Game.StateMachine.Runs.{is_terminal}
use clu_chess.Store.Loading.{PersistedGame, load_game, find_assignment, player_for}
use clu_chess.Store.LockedClock.{is_live}
use clu_chess.Store.Rows.{Uuid, GameRow, PlayerRow, AssignmentRow, Database}
use clu_chess.Store.Seats.{is_seated, IsAllocated-same, update-IsAllocated, seats-update_where}
use clu_chess.Store.Soundness.{IsSound, IsConsistent, IsConsistent-same, update-IsConsistent}
use clu_chess.Store.Tables.{update_game}
use clu_chess.Lifecycle.Adjudication.{locked_fields}
use clu_chess.Lifecycle.Connection.{
  PlayerDisconnected, PlayerReconnected, mark_disconnected, disconnect_in_transaction,
  mark_reconnected, reconnect_in_transaction, update_player, start_grace, end_grace,
  reconnecting_row, restored_row, other_deadlines,
}
use clu_chess.Lifecycle.Ending.{earliest}
use clu_chess.Lifecycle.Settlement.{
  lock_game_clock_lem, load_game_self, update_game_row_lem, lock_game_clock-none,
}
use clu_chess.Server.Endings.{live_open}
use clu_chess.Server.Progress.{Proceeds, stays, same_rows, updates}

-- A game whose row has been changed by a function that keeps it live and sound.
changed-IsConsistent :
    (id : Uuid) (db after : Database) (game : PersistedGame) (f : GameRow → GameRow)
    → load_game id db ≡ some game
    → ((x : GameRow) → (f x).id ≡ x.id)
    → ((x : GameRow) → is_terminal (f x).status ≡ false)
    → (IsSound game.game → IsSound (f game.game))
    → after.games ≡ (update_game game.game.id game.game.version f db.games).1
    → after.assignments ≡ db.assignments
    → IsConsistent db
    → IsConsistent after
changed-IsConsistent id db after game f h same live sound g a v =
    IsConsistent-same _
      (update-IsConsistent db game.game.id game.game.version f same (λ x _. live x)
        (λ x found s.
          let here : game.game ≡ x = ground (arith, load_game_self id db game h) in
          subst (λ y. IsSound (f y)) here (sound (subst IsSound (sym here) s)))
        v)
      g a

changed-Proceeds :
    (id : Uuid) (db after : Database) (game : PersistedGame) (f : GameRow → GameRow)
    → load_game id db ≡ some game
    → ((x : GameRow) → (f x).id ≡ x.id)
    → ((x : GameRow) → is_terminal (f x).status ≡ false)
    → (IsSound game.game → IsSound (f game.game))
    → is_terminal game.game.status ≡ false
    → game.game.version < (f game.game).version
    → after.games ≡ (update_game game.game.id game.game.version f db.games).1
    → after.assignments ≡ db.assignments
    → ((i guest : Uuid) → is_seated i guest after.players ≡ is_seated i guest db.players)
    → Proceeds db after
changed-Proceeds id db after game f h same live sound open_end later g a seats = record {
  allocated = λ v.
      update-IsAllocated db after game.game f (load_game_self id db game h) open_end same g seats a
        v;
  consistent = λ v. changed-IsConsistent id db after game f h same live sound g a v;
  rows = updates (record {
    row = game.game;
    change = f;
    found = load_game_self id db game h;
    open_end = open_end;
    same_id = same;
    later = later;
    games = g;
  });
}

untouched :
    (db after : Database)
    → after.games ≡ db.games
    → after.assignments ≡ db.assignments
    → ((i guest : Uuid) → is_seated i guest after.players ≡ is_seated i guest db.players)
    → Proceeds db after
untouched db after g a seats = record {
  allocated = λ v. IsAllocated-same db after g seats a v;
  consistent = λ v. IsConsistent-same _ v g a;
  rows = same_rows g;
}

reconnecting-IsSound :
    (d : Option ℤ) (g : GameRow)
    → is_live g.status ≡ true
    → IsSound g
    → IsSound (reconnecting_row d g)
unfolding is_live
reconnecting-IsSound d g live h = record {
  result = ground arith;
  termination = ground arith;
  ended = ground arith;
  turn = ground arith;
  started = ground arith;
  white = ground arith;
  black = ground arith;
  increment = ground arith;
}

restored-IsSound :
    (ds : List ℤ) (g : GameRow) → g.status ≡ reconnecting → IsSound g → IsSound (restored_row ds g)
unfolding is_live
restored-IsSound ds g status h = record {
  result = ground arith;
  termination = ground arith;
  ended = ground arith;
  turn = ground arith;
  started = ground arith;
  white = ground arith;
  black = ground arith;
  increment = ground arith;
}

disconnect_ends :
    (guest : Uuid) (a : AssignmentRow) (db : Database) (game : PersistedGame) (player : PlayerRow)
    (now grace : ℤ)
    → find_assignment guest db ≡ some a
    → load_game a.game_id db ≡ some game
    → player_for game guest ≡ some player
    → let after = (mark_disconnected now guest grace db).1 in
      let first = earliest ((now +ℤ grace) ∷ other_deadlines player game.players) in
      (after.assignments ≡ db.assignments)
      × ((after.games ≡ db.games)
          ⊎ ((is_live game.game.status ≡ true)
              × (after.games
                  ≡ (update_game game.game.id game.game.version
                      (reconnecting_row first)
                      db.games).1)))
unfolding mark_disconnected disconnect_in_transaction update_player
disconnect_ends guest a db game player now grace found h m =
    let first = earliest ((now +ℤ grace) ∷ other_deadlines player game.players) in
    ground (
      arith,
      lock_game_clock_lem a.game_id db game now h,
      locked_fields game.game now,
      update_game_row_lem {R = Option PlayerDisconnected} game.game (reconnecting_row first)
          (update_player player.id (start_grace now (now +ℤ grace)) db)
          (load_game_self a.game_id db game h) refl,
    )

reconnect_ends :
    (guest : Uuid) (a : AssignmentRow) (db : Database) (game : PersistedGame) (player : PlayerRow)
    (now : ℤ)
    → find_assignment guest db ≡ some a
    → load_game a.game_id db ≡ some game
    → player_for game guest ≡ some player
    → let after = (mark_reconnected now guest db).1 in
      let left = other_deadlines player game.players in
      (after.assignments ≡ db.assignments)
      × ((after.games ≡ db.games)
          ⊎ ((game.game.status ≡ reconnecting)
              × (after.games
                  ≡ (update_game game.game.id game.game.version (restored_row left) db.games).1)))
unfolding mark_reconnected reconnect_in_transaction update_player eq_status
reconnect_ends guest a db game player now found h m =
    let left = other_deadlines player game.players in
    ground (
      arith,
      lock_game_clock_lem a.game_id db game now h,
      locked_fields game.game now,
      update_game_row_lem {R = Option PlayerReconnected} game.game (restored_row left)
          (update_player player.id (end_grace now) db) (load_game_self a.game_id db game h) refl,
    )

disconnect_seats :
    (guest : Uuid) (a : AssignmentRow) (db : Database) (game : PersistedGame) (player : PlayerRow)
    (now grace : ℤ)
    → find_assignment guest db ≡ some a
    → load_game a.game_id db ≡ some game
    → player_for game guest ≡ some player
    → (i other : Uuid)
    → is_seated i other (mark_disconnected now guest grace db).1.players
      ≡ is_seated i other db.players
unfolding mark_disconnected disconnect_in_transaction update_player
disconnect_seats guest a db game player now grace found h m i other =
    let first = earliest ((now +ℤ grace) ∷ other_deadlines player game.players) in
    ground (
      arith,
      lock_game_clock_lem a.game_id db game now h,
      locked_fields game.game now,
      update_game_row_lem {R = Option PlayerDisconnected} game.game (reconnecting_row first)
          (update_player player.id (start_grace now (now +ℤ grace)) db)
          (load_game_self a.game_id db game h) refl,
      seats-update_where (λ p. p.id == player.id) (start_grace now (now +ℤ grace)) db.players i
          other (λ p. refl) (λ p. refl),
      seats-update_where (λ p. p.id == player.id) (λ p. record p { connected_at = none }) db.players
          i other (λ p. refl) (λ p. refl),
    )

reconnect_seats :
    (guest : Uuid) (a : AssignmentRow) (db : Database) (game : PersistedGame) (player : PlayerRow)
    (now : ℤ)
    → find_assignment guest db ≡ some a
    → load_game a.game_id db ≡ some game
    → player_for game guest ≡ some player
    → (i other : Uuid)
    → is_seated i other (mark_reconnected now guest db).1.players ≡ is_seated i other db.players
unfolding mark_reconnected reconnect_in_transaction update_player
reconnect_seats guest a db game player now found h m i other =
    let left = other_deadlines player game.players in
    ground (
      arith,
      lock_game_clock_lem a.game_id db game now h,
      locked_fields game.game now,
      update_game_row_lem {R = Option PlayerReconnected} game.game (restored_row left)
          (update_player player.id (end_grace now) db) (load_game_self a.game_id db game h) refl,
      seats-update_where (λ p. p.id == player.id) (end_grace now) db.players i other (λ p. refl)
          (λ p. refl),
    )

disconnect_free :
    (guest : Uuid) (db : Database) (now grace : ℤ)
    → find_assignment guest db ≡ none
    → (mark_disconnected now guest grace db).1 ≡ db
unfolding mark_disconnected disconnect_in_transaction
disconnect_free guest db now grace h = ground arith

disconnect_missing :
    (guest : Uuid) (a : AssignmentRow) (db : Database) (now grace : ℤ)
    → find_assignment guest db ≡ some a
    → load_game a.game_id db ≡ none
    → (mark_disconnected now guest grace db).1 ≡ db
unfolding mark_disconnected disconnect_in_transaction
disconnect_missing guest a db now grace found h =
    ground (arith, lock_game_clock-none a.game_id db now h)

disconnect_stranger :
    (guest : Uuid) (a : AssignmentRow) (db : Database) (game : PersistedGame) (now grace : ℤ)
    → find_assignment guest db ≡ some a
    → load_game a.game_id db ≡ some game
    → player_for game guest ≡ none
    → (mark_disconnected now guest grace db).1 ≡ db
unfolding mark_disconnected disconnect_in_transaction
disconnect_stranger guest a db game now grace found h m =
    ground (arith, lock_game_clock_lem a.game_id db game now h)

reconnect_free :
    (guest : Uuid) (db : Database) (now : ℤ)
    → find_assignment guest db ≡ none
    → (mark_reconnected now guest db).1 ≡ db
unfolding mark_reconnected reconnect_in_transaction
reconnect_free guest db now h = ground arith

reconnect_missing :
    (guest : Uuid) (a : AssignmentRow) (db : Database) (now : ℤ)
    → find_assignment guest db ≡ some a
    → load_game a.game_id db ≡ none
    → (mark_reconnected now guest db).1 ≡ db
unfolding mark_reconnected reconnect_in_transaction
reconnect_missing guest a db now found h = ground (arith, lock_game_clock-none a.game_id db now h)

reconnect_stranger :
    (guest : Uuid) (a : AssignmentRow) (db : Database) (game : PersistedGame) (now : ℤ)
    → find_assignment guest db ≡ some a
    → load_game a.game_id db ≡ some game
    → player_for game guest ≡ none
    → (mark_reconnected now guest db).1 ≡ db
unfolding mark_reconnected reconnect_in_transaction
reconnect_stranger guest a db game now found h m =
    ground (arith, lock_game_clock_lem a.game_id db game now h)

pub Proceeds-mark_disconnected :
    (guest : Uuid) (db : Database) (now grace : ℤ)
    → Proceeds db (mark_disconnected now guest grace db).1
Proceeds-mark_disconnected guest db now grace = elim (Option-cases (find_assignment guest db)) [
  | inl free ↦ rw (disconnect_free guest db now grace free) (stays db)
  | inr (a, found) ↦ elim (Option-cases (load_game a.game_id db)) [
    | inl missing ↦ rw (disconnect_missing guest a db now grace found missing) (stays db)
    | inr (game, h) ↦ elim (Option-cases (player_for game guest)) [
      | inl stranger ↦
          rw (disconnect_stranger guest a db game now grace found h stranger) (stays db)
      | inr (player, m) ↦
          let (kept, ends) = disconnect_ends guest a db game player now grace found h m in
          let seats = disconnect_seats guest a db game player now grace found h m in
          elim ends [
            | inl same ↦ untouched db _ same kept seats
            | inr (live, g) ↦
                changed-Proceeds a.game_id db _ game _ h (λ x. refl) (λ x. refl)
                  (reconnecting-IsSound _ game.game live) (live_open game.game.status live)
                  (ground arith) g kept seats
          ]
    ]
  ]
]

pub Proceeds-mark_reconnected :
    (guest : Uuid) (db : Database) (now : ℤ) → Proceeds db (mark_reconnected now guest db).1
Proceeds-mark_reconnected guest db now = elim (Option-cases (find_assignment guest db)) [
  | inl free ↦ rw (reconnect_free guest db now free) (stays db)
  | inr (a, found) ↦ elim (Option-cases (load_game a.game_id db)) [
    | inl missing ↦ rw (reconnect_missing guest a db now found missing) (stays db)
    | inr (game, h) ↦ elim (Option-cases (player_for game guest)) [
      | inl stranger ↦ rw (reconnect_stranger guest a db game now found h stranger) (stays db)
      | inr (player, m) ↦
          let left = other_deadlines player game.players in
          let (kept, ends) = reconnect_ends guest a db game player now found h m in
          let seats = reconnect_seats guest a db game player now found h m in
          elim ends [
            | inl same ↦ untouched db _ same kept seats
            | inr (away, g) ↦
                changed-Proceeds a.game_id db _ game (restored_row left) h (λ x. refl)
                  (λ x. ground arith) (restored-IsSound left game.game away) (ground (arith, away))
                  (ground arith) g kept seats
          ]
    ]
  ]
]
