-- ===== src/Allocation/Starting.antt =====
-- What `startIfReady` of prisma-game.repository.ts leaves.
use clu_chess.Base.{
  ◌+◌, ◌≡◌, refl, sym, ◌⊎◌, inl, inr, true, false, none, some, arith, Option-cases, Bool-cases,
}
use clu_chess.Base.Number.{ℤ}
use clu_chess.Game.{ready, eq_status}
use clu_chess.Store.Loading.{lock_game_clock}
use clu_chess.Store.LockedClock.{locked_clock}
use clu_chess.Store.Rows.{Uuid, GameRow, Database}
use clu_chess.Store.Tables.{find_game, update_game, update_game_hit, find_game-id}
use clu_chess.Store.Tx.{returned, next, thrown, unknown}
use clu_chess.Allocation.Admission.{find_allocation_cases}
use clu_chess.Allocation.Joining.{bump, update_game_at_version_lem}
use clu_chess.Allocation.Ready.{update_game_at_version}
use clu_chess.Allocation.Records.{
  SeatedPlayer, map_allocation, PersistedAllocation, find_allocation,
}
use clu_chess.Allocation.Rooms.{IsRoom, room, find_room}
use clu_chess.Allocation.Start.{
  started_result, StartResult, start_if_ready, start_in_transaction, started_row,
}

unfoldable pub started_tables : ℤ → GameRow → Database → Database
started_tables now g db = record db {
  games = (update_game g.id g.version (bump (started_row now)) db.games).1;
}

locked_row :
    (now : ℤ) (g : GameRow)
    → ((locked_clock g now).status ≡ g.status)
      × ((locked_clock g now).version ≡ g.version)
      × ((locked_clock g now).observed_at ≡ now)
unfolding locked_clock
locked_row now g = (refl, refl, refl)

module _ (now : ℤ) (id : Uuid) (db : Database) where
  absent : find_game id db.games ≡ none → (start_if_ready now id db).1 ≡ db
  unfolding start_if_ready start_in_transaction lock_game_clock
  absent h = ground arith

  module _ (g : GameRow) (found : find_game id db.games ≡ some g) where
    same_id : g.id ≡ id
    same_id = find_game-id id db.games g found

    starts_row :
        update_game_at_version {R = StartResult} id g.version (started_row now) db
        ≡ next (some (g.version + 1)) (started_tables now g db)
    unfolding started_tables
    starts_row = ground (
      arith,
      same_id,
      update_game_at_version_lem {R = StartResult} g (started_row now) db
          (rw (sym same_id) at found) refl,
    )

    found_after : find_game id (started_tables now g db).games ≡ some (bump (started_row now) g)
    unfolding started_tables
    found_after = ground (
      arith,
      same_id,
      update_game_hit g.id (bump (started_row now)) g db.games (rw (sym same_id) at found) refl,
    )

    locked_lem : lock_game_clock now id db ≡ some (locked_clock g now)
    unfolding lock_game_clock
    locked_lem = rw (found, lock_game_clock)

    -- Either way the row is read again, or the reading throws.
    kept :
        (a : PersistedAllocation)
        → eq_status g.status ready ≡ false
        → find_allocation {R = StartResult} id db ≡ next (some a) db
        → start_in_transaction now id db ≡ returned (StartResult.found a false) db
    unfolding start_in_transaction
    kept a h again = ground (arith, locked_lem, locked_row now g)

    kept_unreadable :
        eq_status g.status ready ≡ false
        → find_allocation {R = StartResult} id db ≡ thrown unknown
        → start_in_transaction now id db ≡ thrown unknown
    unfolding start_in_transaction
    kept_unreadable h again = ground (arith, locked_lem, locked_row now g)

    starts :
        (a : PersistedAllocation)
        → eq_status g.status ready ≡ true
        → find_allocation {R = StartResult} id (started_tables now g db)
          ≡ next (some a) (started_tables now g db)
        → start_in_transaction now id db
          ≡ returned (StartResult.found a true) (started_tables now g db)
    unfolding start_in_transaction
    starts a h again = ground (arith, locked_lem, locked_row now g, starts_row)

    starts_unreadable :
        eq_status g.status ready ≡ true
        → find_allocation {R = StartResult} id (started_tables now g db) ≡ thrown unknown
        → start_in_transaction now id db ≡ thrown unknown
    unfolding start_in_transaction
    starts_unreadable h again = ground (arith, locked_lem, locked_row now g, starts_row)

  -- A request to start leaves the tables, or starts a game that is READY.
  pub start_if_ready_cases :
      let after = (start_if_ready now id db).1 in
      (after ≡ db)
      ⊎ ((g : GameRow) × (find_game id db.games ≡ some g)
          × (eq_status g.status ready ≡ true)
          × (after ≡ started_tables now g db))
  unfolding start_if_ready
  start_if_ready_cases = elim (Option-cases (find_game id db.games)) [
    | inl none_there ↦ inl (absent none_there)
    | inr (g, found) ↦ elim (Bool-cases (eq_status g.status ready)) [
      | inl h ↦
          elim (find_allocation_cases {R = StartResult} id (started_tables now g db)
            (bump (started_row now) g) (found_after g found)) [
              | inl fails ↦ inl (ground (arith, starts_unreadable g found h fails))
              | inr (a, again, _) ↦ inr (g, found, h, ground (arith, starts g found a h again))
            ]
      | inr h ↦ elim (find_allocation_cases {R = StartResult} id db g found) [
        | inl fails ↦ inl (ground (arith, kept_unreadable g found h fails))
        | inr (a, again, _) ↦ inl (ground (arith, kept g found a h again))
      ]
    ]
  ]

-- A game that is READY is started.
pub start_if_ready_lem :
    (now : ℤ) (g : GameRow) (white black : SeatedPlayer) (db : Database)
    → IsRoom g white black db
    → g.status ≡ ready
    → (start_if_ready now g.id db ≡ (
      started_result true (map_allocation (room (bump (started_row now) g) white black)),
      started_tables now g db,
    ))
      × IsRoom (bump (started_row now) g) white black (started_tables now g db)
start_if_ready_lem now g white black db h is_ready = (
  unfold start_if_ready in
      ground (
        arith,
        starts now g.id db g h.found (room (bump (started_row now) g) white black)
            (unfold eq_status in ground (arith, is_ready))
            (find_room {R = StartResult} _ white black _ still_room),
      ),
  still_room,
)
  where
    still_room : IsRoom (bump (started_row now) g) white black (started_tables now g db)
    still_room = record {
      found = found_after now g.id db g h.found;
      members = unfold started_tables in h.members;
      white_stored = unfold started_tables in h.white_stored;
      black_stored = unfold started_tables in h.black_stored;
      players = h.players;
      guests = h.guests;
    }
