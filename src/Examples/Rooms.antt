-- ===== src/Examples/Rooms.antt =====
-- The services on a new game.
use clu_chess.Base.{
  ◌∷◌, err, ◌≡◌, ◌≢◌, refl, ◌==◌, true, false, none, some, [], ok, arith, if◌then◌else◌,
}
use clu_chess.Base.Number.{pos}
use clu_chess.Game.{waiting_for_players, eq_status}
use clu_chess.Game.Clock.{clock_view_at, assert_clock, assert_timestamp}
use clu_chess.Store.Loading.{players_of}
use clu_chess.Store.Rows.{Database}
use clu_chess.Store.Tables.{find_game}
use clu_chess.Gameplay.History.{moves_of}
use clu_chess.Allocation.Allocate.{
  allocated_tables, new_game, new_players, new_assignments, new_white, new_black,
}
use clu_chess.Allocation.Answer.{white_seat, black_seat}
use clu_chess.Allocation.Kickoff.{allocated-IsRoom}
use clu_chess.Allocation.Queries.{find_snapshot, find_by_id}
use clu_chess.Allocation.Readiness.{ready_request}
use clu_chess.Allocation.Records.{
  SeatedPlayer, find_allocation, include_players, with_guests, map_allocation, map_game, map_player,
}
use clu_chess.Services.Adjudication.{adjudicate_game}
use clu_chess.Services.Effect.{IsSingle, adjudicate_game_cases}
use clu_chess.Services.Opening.{ready_player_lem}
use clu_chess.Services.Presentation.{shown_payload, snapshot-present_snapshot}
use clu_chess.Services.Presenter.{present_snapshot}
use clu_chess.Services.Room.{ready_player, snapshot, GameSnapshotView, snapshot_clock}
use clu_chess.Examples.Openings.{
  ada, bob, lobby, pairing, pairing-IsAdmissible, lobby-IsAllocated, fresh_ids,
}

abbrev made : Database
made = allocated_tables (11, 12) pairing lobby

made_waiting : (new_game pairing).status ≡ waiting_for_players
unfolding new_game
made_waiting = refl

abbrev ada_seat : SeatedPlayer
ada_seat = white_seat (11, 12) pairing lobby ada

ready_player_lem_example :
    let g = new_game pairing in
    let (answer, after) =
      ready_player (ready_request (pos 200) g ada_seat) (pos 300) (pos 400) made in
    (answer ≡ elim (snapshot (pos 400) g.id ada_seat.player.guest_session_id after) [
      | ok view ↦ ok (record { snapshot = view; started = none })
      | err e ↦ err e
    ])
    × (find_game g.id after.games ≡ some g)
    × (players_of g.id after.players
        ≡ record ada_seat.player { connected_at = some (pos 200); joined_at = some (pos 200) }
          ∷ (black_seat (11, 12) pairing lobby bob).player
          ∷ [])
ready_player_lem_example =
    ready_player_lem true (pos 200) (pos 300) (pos 400) (new_game pairing) ada_seat
      (black_seat (11, 12) pairing lobby bob) made
      (allocated-IsRoom (11, 12) pairing lobby ada bob pairing-IsAdmissible lobby-IsAllocated
        fresh_ids refl refl)
      made_waiting false refl

adjudicate_game_cases_example :
    IsSingle
      (pos 900)
      (pos 900)
      (pos 900)
      (pos 900)
      (λ guest. some (guest == 101))
      1
      made
      (adjudicate_game
        (pos 900)
        (pos 900)
        (pos 900)
        (pos 900)
        (λ guest. some (guest == 101))
        1
        made)
adjudicate_game_cases_example =
    adjudicate_game_cases (pos 900) (pos 900) (pos 900) (pos 900) (λ guest. some (guest == 101)) 1
      made

abbrev shown : GameSnapshotView
shown = record {
  snapshot = record {
    game = map_game (new_game pairing);
    players = (
      map_player (white_seat (11, 12) pairing lobby ada),
      map_player (black_seat (11, 12) pairing lobby bob),
    );
    moves = [];
    observed_at = pos 150;
  };
  clocks = record {
    black_ms = pos 3000;
    observed_at = some (pos 150);
    running = none;
    white_ms = pos 3000;
  };
}

shown_lem : snapshot (pos 150) 1 102 made ≡ ok shown
unfolding snapshot find_snapshot find_by_id find_allocation include_players with_guests find_game
    players_of allocated_tables new_game new_players new_assignments new_white new_black
    map_allocation map_game map_player moves_of snapshot_clock clock_view_at assert_clock
    assert_timestamp eq_status
shown_lem = refl

different :
    (new_white (11, 12) pairing).guest_session_id ≢ (new_black (11, 12) pairing).guest_session_id
different = ground arith

snapshot-present_snapshot_example :
    let (p, q) = shown.snapshot.players in
    present_snapshot shown 102
    ≡ some (if p.guest_session_id == 102 then shown_payload shown p q else shown_payload shown q p)
snapshot-present_snapshot_example =
    snapshot-present_snapshot (pos 150) 1 102 made shown shown_lem (unfold map_player in different)
