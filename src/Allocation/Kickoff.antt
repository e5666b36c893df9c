-- ===== src/Allocation/Kickoff.antt =====
-- From an allocation to a game in play: `allocate`, `markReady` of both players in either order,
-- `startIfReady` (prisma-game.repository.ts).
use clu_chess.Base.{none, if◌then◌else◌, ◌≡◌, ◌≢◌, refl, ◌==◌, Bool, true, false, some}
use clu_chess.Base.Number.{ℤ}
use clu_chess.Game.{PlayerColor, in_progress, waiting_for_players}
use clu_chess.Store.Rows.{Uuid, GuestRow, GameRow, Database}
use clu_chess.Store.Seats.{IsAllocated}
use clu_chess.Store.Tables.{find, find_game}
use clu_chess.Lifecycle.Ending.{is_set}
use clu_chess.Allocation.Admission.{IsAdmissible}
use clu_chess.Allocation.Allocate.{allocate, allocated_tables, new_game, new_players}
use clu_chess.Allocation.Answer.{allocate_lem, white_seat, black_seat, new_players_lem}
use clu_chess.Allocation.Creation.{found_new}
use clu_chess.Allocation.Joining.{bump}
use clu_chess.Allocation.Readiness.{ready_request, ready-IsRoom}
use clu_chess.Allocation.Ready.{mark_ready, ready_row, joining}
use clu_chess.Allocation.Records.{MarkGameReady, AllocateGame, SeatedPlayer}
use clu_chess.Allocation.Rooms.{IsRoom, seat_joining, white_of, black_of}
use clu_chess.Allocation.Start.{start_if_ready, started_row}
use clu_chess.Allocation.Starting.{start_if_ready_lem}

-- Once a player has joined, the other one does.
second_joins :
    (side : Bool) (t1 t2 : ℤ) (g : GameRow) (s o : SeatedPlayer) (db : Database)
    → IsRoom g (white_of side s o) (black_of side s o) db
    → g.status ≡ waiting_for_players
    → is_set o.player.joined_at ≡ false
    → let first = (mark_ready (ready_request t1 g s) db).1 in
      IsRoom
        (bump ready_row g)
        (white_of side (seat_joining t1 s) (seat_joining t2 o))
        (black_of side (seat_joining t1 s) (seat_joining t2 o))
        (mark_ready (ready_request t2 g o) first).1
second_joins true t1 t2 g s o db h waiting away =
    ready-IsRoom false t2 g o (seat_joining t1 s) _
      (ready-IsRoom true t1 g s o db h waiting false away) waiting true (unfold joining in refl)
second_joins false t1 t2 g s o db h waiting away =
    ready-IsRoom true t2 g o (seat_joining t1 s) _
      (ready-IsRoom false t1 g s o db h waiting false away) waiting true (unfold joining in refl)

-- Two requests to be ready, and one to start.
pub kickoff :
    (side : Bool) (t1 t2 t3 : ℤ) (g : GameRow) (s o : SeatedPlayer) (db : Database)
    → IsRoom g (white_of side s o) (black_of side s o) db
    → g.status ≡ waiting_for_players
    → is_set o.player.joined_at ≡ false
    → let first = (mark_ready (ready_request t1 g s) db).1 in
      let second = (mark_ready (ready_request t2 g o) first).1 in
      find_game g.id (start_if_ready t3 g.id second).1.games
      ≡ some (bump (started_row t3) (bump ready_row g))
kickoff side t1 t2 t3 g s o db h waiting away =
    let (answer, started) =
      start_if_ready_lem t3 (bump ready_row g) _ _ _
        (second_joins side t1 t2 g s o db h waiting away) refl in
    rw answer started.found

-- The room that an allocation makes.
pub allocated-IsRoom :
    (fresh : Uuid × Uuid) (input : AllocateGame) (db : Database)
    (white_guest black_guest : GuestRow)
    → IsAdmissible input db
    → IsAllocated db
    → fresh.0 ≢ fresh.1
    → find (λ g. g.id == input.white_guest_session_id) db.guests ≡ some white_guest
    → find (λ g. g.id == input.black_guest_session_id) db.guests ≡ some black_guest
    → IsRoom
        (new_game input)
        (white_seat fresh input db white_guest)
        (black_seat fresh input db black_guest)
        (allocated_tables fresh input db)
unfolding new_game
allocated-IsRoom fresh input db white_guest black_guest h v ne w b = record {
  found = found_new fresh input db h.new_id;
  members = unfold new_players in new_players_lem fresh input db v h.new_id;
  white_stored = unfold allocated_tables in w;
  black_stored = unfold allocated_tables in b;
  players = ne;
  guests = h.distinct;
}

-- What a guest sends who has seen the new game.
abbrev pub first_request : AllocateGame → ℤ → Uuid → MarkGameReady
first_request input now guest = record {
  expected_version = 0;
  game_id = input.game_id;
  guest_session_id = guest;
  observed_at = now;
}

-- After an admissible allocation, for two guests that are stored, to tables where every
-- player's game is stored and the players of open games are assigned to them, with two
-- different ids for the players' rows: once both guests have asked to be ready, in either order
-- and at any times, a request to start the game brings it into play at that moment:
-- IN_PROGRESS, white to move from the initial position, both clocks full, at version 2.
pub allocate-kickoff :
    (side : Bool) (t1 t2 t3 : ℤ) (fresh : Uuid × Uuid) (input : AllocateGame) (db : Database)
    (white_guest black_guest : GuestRow)
    → IsAdmissible input db
    → IsAllocated db
    → fresh.0 ≢ fresh.1
    → find (λ g. g.id == input.white_guest_session_id) db.guests ≡ some white_guest
    → find (λ g. g.id == input.black_guest_session_id) db.guests ≡ some black_guest
    → let made = (allocate fresh input db).1 in
      let first_guest =
        if side then input.white_guest_session_id else input.black_guest_session_id in
      let second_guest =
        if side then input.black_guest_session_id else input.white_guest_session_id in
      let first = (mark_ready (first_request input t1 first_guest) made).1 in
      let second = (mark_ready (first_request input t2 second_guest) first).1 in
      find_game input.game_id (start_if_ready t3 input.game_id second).1.games
      ≡ some (record {
        id = input.game_id;
        match_id = input.match_id;
        status = in_progress;
        initial_fen = input.initial_fen;
        current_fen = input.initial_fen;
        turn_color = PlayerColor.w;
        pgn = input.pgn;
        version = 2;
        result = none;
        termination = none;
        time_initial_ms = input.time_initial_ms;
        increment_ms = input.time_increment_ms;
        white_clock_ms = input.time_initial_ms;
        black_clock_ms = input.time_initial_ms;
        turn_started_at = some t3;
        join_deadline_at = some input.join_deadline_at;
        reconnect_deadline_at = none;
        started_at = some t3;
        ended_at = none;
      })
allocate-kickoff true t1 t2 t3 fresh input db white_guest black_guest h v ne w b =
    rw (allocate_lem fresh input db white_guest black_guest h v w b) (
      unfold new_game in
      kickoff true t1 t2 t3 (new_game input) (white_seat fresh input db white_guest)
        (black_seat fresh input db black_guest) (allocated_tables fresh input db)
        (allocated-IsRoom fresh input db white_guest black_guest h v ne w b) refl refl)
allocate-kickoff false t1 t2 t3 fresh input db white_guest black_guest h v ne w b =
    rw (allocate_lem fresh input db white_guest black_guest h v w b) (
      unfold new_game in
      kickoff false t1 t2 t3 (new_game input) (black_seat fresh input db black_guest)
        (white_seat fresh input db white_guest) (allocated_tables fresh input db)
        (allocated-IsRoom fresh input db white_guest black_guest h v ne w b) refl refl)
