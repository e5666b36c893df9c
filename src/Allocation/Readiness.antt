-- ===== src/Allocation/Readiness.antt =====
-- A player of a waiting game who calls `markReady` of prisma-game.repository.ts, whichever of the
-- two it is.
use clu_chess.Base.{some, if◌then◌else◌, ◌≡◌, refl, Bool, true, false, [], ◌∷◌, arith}
use clu_chess.Base.Number.{ℤ}
use clu_chess.Game.{eq_status, waiting_for_players}
use clu_chess.Store.Loading.{players_of}
use clu_chess.Store.Rows.{GameRow, Database}
use clu_chess.Store.Tables.{find_game, update_game_hit}
use clu_chess.Store.Tx.{next}
use clu_chess.Lifecycle.Connection.{update_player}
use clu_chess.Lifecycle.Ending.{is_set}
use clu_chess.Allocation.Allocate.{mapped}
use clu_chess.Allocation.Joining.{
  bump, completes, readied_tables, joins_lem, IsJoinable, joined_tables,
}
use clu_chess.Allocation.Ready.{mark_ready, ReadyResult, joining, ready_row}
use clu_chess.Allocation.Records.{map_allocation, find_allocation, MarkGameReady, SeatedPlayer}
use clu_chess.Allocation.Rooms.{
  count_joined_lem, room, find_room, IsRoom, seat_joining, white_of, black_of, players-update_where,
}

abbrev pub ready_request : ℤ → GameRow → SeatedPlayer → MarkGameReady
ready_request now g s = record {
  expected_version = g.version;
  game_id = g.id;
  guest_session_id = s.player.guest_session_id;
  observed_at = now;
}

-- The row once one player joins, if the other has joined or not.
abbrev pub row_after : Bool → GameRow → GameRow
row_after other g = if other then bump ready_row g else g

module _ (side : Bool) (now : ℤ) (g : GameRow) (s o : SeatedPlayer) (db : Database)
    (h : IsRoom g (white_of side s o) (black_of side s o) db)
    (waiting : g.status ≡ waiting_for_players) where
  members :
      (b : Bool)
      → b ≡ side
      → players_of g.id (joined_tables (ready_request now g s) s db).players
        ≡ (white_of b (seat_joining now s) o).player
          ∷ (black_of b (seat_joining now s) o).player
          ∷ []
  unfolding joined_tables update_player
  members true e = ground (
    arith,
    players-update_where g.id s.player.id (joining now s.player) db.players
        (λ p. unfold joining in refl) (λ p. unfold joining in refl),
    h.members,
    h.players,
  )
  members false e = ground (
    arith,
    players-update_where g.id s.player.id (joining now s.player) db.players
        (λ p. unfold joining in refl) (λ p. unfold joining in refl),
    h.members,
    h.players,
  )

  completes_lem :
      (b other : Bool)
      → b ≡ side
      → is_set o.player.joined_at ≡ other
      → completes (ready_request now g s) g s db ≡ other
  unfolding completes joining eq_status
  completes_lem true other d e = ground (
    arith,
    count_joined_lem g.id (joined_tables (ready_request now g s) s db),
    members true d,
    waiting,
  )
  completes_lem false other d e = ground (
    arith,
    count_joined_lem g.id (joined_tables (ready_request now g s) s db),
    members false d,
    waiting,
  )

  found_after :
      (other : Bool)
      → find_game g.id (readied_tables other (ready_request now g s) g s db).games
        ≡ some (row_after other g)
  unfolding readied_tables joined_tables update_player
  found_after true = (update_game_hit g.id (bump ready_row) g db.games h.found refl).1
  found_after false = h.found

  -- The room after a player has joined.
  pub readied-IsRoom :
      (b other : Bool)
      → b ≡ side
      → IsRoom
          (row_after other g)
          (white_of b (seat_joining now s) o)
          (black_of b (seat_joining now s) o)
          (readied_tables other (ready_request now g s) g s db)
  unfolding readied_tables joined_tables update_player joining
  readied-IsRoom true true d = record {
    found = found_after true;
    members = members true d;
    white_stored = ground (arith, h.white_stored);
    black_stored = ground (arith, h.black_stored);
    players = ground (arith, h.players);
    guests = ground (arith, h.guests);
  }
  readied-IsRoom true false d = record {
    found = found_after false;
    members = members true d;
    white_stored = ground (arith, h.white_stored);
    black_stored = ground (arith, h.black_stored);
    players = ground (arith, h.players);
    guests = ground (arith, h.guests);
  }
  readied-IsRoom false true d = record {
    found = found_after true;
    members = members false d;
    white_stored = ground (arith, h.white_stored);
    black_stored = ground (arith, h.black_stored);
    players = ground (arith, h.players);
    guests = ground (arith, h.guests);
  }
  readied-IsRoom false false d = record {
    found = found_after false;
    members = members false d;
    white_stored = ground (arith, h.white_stored);
    black_stored = ground (arith, h.black_stored);
    players = ground (arith, h.players);
    guests = ground (arith, h.guests);
  }

  joinable :
      (b : Bool)
      → b ≡ side
      → IsJoinable (ready_request now g s) db (room g (white_of side s o) (black_of side s o)) s
  unfolding eq_status
  joinable true d = record {
    found = h.found;
    member = ground (arith, h.guests);
    current = ground arith;
    status = ground (arith, waiting);
  }
  joinable false d = record {
    found = h.found;
    member = ground (arith, h.guests);
    current = ground arith;
    status = ground (arith, waiting);
  }

  row_id : (other : Bool) → (row_after other g).id ≡ g.id
  row_id true = refl
  row_id false = refl

  again :
      (other : Bool)
      → let after = readied_tables other (ready_request now g s) g s db in
        find_allocation {R = ReadyResult} g.id after
        ≡ next
            (some (
              room
                (row_after other g)
                (white_of side (seat_joining now s) o)
                (black_of side (seat_joining now s) o)))
            after
  again other = ground (
    arith,
    row_id other,
    find_room {R = ReadyResult} (row_after other g) (white_of side (seat_joining now s) o)
        (black_of side (seat_joining now s) o) (readied_tables other (ready_request now g s) g s db)
        (readied-IsRoom side other refl),
  )

  -- A player of a waiting game is set ready, and the game with the player if the other has joined.
  pub ready_lem :
      (other : Bool)
      → is_set o.player.joined_at ≡ other
      → mark_ready (ready_request now g s) db ≡ (
        mapped (
            map_allocation (
              room
                (row_after other g)
                (white_of side (seat_joining now s) o)
                (black_of side (seat_joining now s) o))),
        readied_tables other (ready_request now g s) g s db,
      )
  ready_lem other e =
      joins_lem (ready_request now g s) db (room g (white_of side s o) (black_of side s o)) s
        h.found (find_room {R = ReadyResult} g (white_of side s o) (black_of side s o) db h)
        (joinable side refl).member other _ (joinable side refl) (completes_lem side other refl e)
        (again other)

  pub ready-IsRoom :
      (other : Bool)
      → is_set o.player.joined_at ≡ other
      → IsRoom
          (row_after other g)
          (white_of side (seat_joining now s) o)
          (black_of side (seat_joining now s) o)
          (mark_ready (ready_request now g s) db).1
  ready-IsRoom other e = rw (ready_lem other e) (readied-IsRoom side other refl)
