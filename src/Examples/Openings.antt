-- ===== src/Examples/Openings.antt =====
-- Two guests, no game, and an allocation.
use clu_chess.Base.{◌⊎◌, ℕ, ◌≡◌, ◌≢◌, refl, true, false, none, some, List, [], ◌∷◌, arith}
use clu_chess.Base.Number.{ℤ, pos}
use clu_chess.Game.{PlayerColor, in_progress}
use clu_chess.Game.StateMachine.Runs.{is_terminal}
use clu_chess.Store.Loading.{players_of}
use clu_chess.Store.Rows.{GuestRow, Database}
use clu_chess.Store.Seats.{is_seated, IsAllocated}
use clu_chess.Store.Tables.{find_game}
use clu_chess.Allocation.Admission.{IsAdmissible, allocate_cases}
use clu_chess.Allocation.Allocate.{
  allocate, allocate_in_transaction, allocated_tables, count_eligible, guest_ids, new_game,
  create_game, new_players, new_assignments,
}
use clu_chess.Allocation.Answer.{allocate-allocate}
use clu_chess.Allocation.Kickoff.{allocate-kickoff, first_request}
use clu_chess.Allocation.Ready.{mark_ready}
use clu_chess.Allocation.Records.{
  AllocateGame, find_match, find_allocation, include_players, with_guests,
}
use clu_chess.Allocation.Start.{start_if_ready}
use clu_chess.Server.Histories.{Operation, allocates, run, apply, run-one_open_game}
use clu_chess.Examples.{engine}

abbrev pub ada : GuestRow
ada = record {
  id = 101;
  display_name = "Ada";
  avatar_key = "knight";
  expires_at = pos 9000;
  revoked_at = none;
}

abbrev pub bob : GuestRow
bob = record ada { id = 102; display_name = "Bob" }

abbrev pub lobby : Database
lobby = record {
  guests = ada ∷ bob ∷ [];
  games = [];
  players = [];
  assignments = [];
  moves = [];
  commands = [];
}

abbrev pub pairing : AllocateGame
pairing = record {
  black_guest_session_id = 102;
  game_id = 1;
  initial_fen = "start";
  join_deadline_at = pos 800;
  match_id = 7;
  observed_at = pos 100;
  pgn = "";
  time_increment_ms = pos 20;
  time_initial_ms = pos 3000;
  white_guest_session_id = 101;
}

pub lobby-IsAllocated : IsAllocated lobby
lobby-IsAllocated = record { stored = λ id guest s. cc s; assigned = λ id guest g s f o. cc s }

pub pairing-IsAdmissible : IsAdmissible pairing lobby
unfolding find_match count_eligible guest_ids find_game
pairing-IsAdmissible = record {
  distinct = ground arith;
  new_match = refl;
  eligible = refl;
  unassigned = refl;
  checked = refl;
  new_id = refl;
}

pub fresh_ids : ◌≢◌ {A = ℕ} 11 12
fresh_ids = ground arith

allocate-kickoff_example :
    let made = (allocate (11, 12) pairing lobby).1 in
    let first = (mark_ready (first_request pairing (pos 200) 102) made).1 in
    let second = (mark_ready (first_request pairing (pos 300) 101) first).1 in
    find_game 1 (start_if_ready (pos 400) 1 second).1.games
    ≡ some (record {
      id = 1;
      match_id = 7;
      status = in_progress;
      initial_fen = "start";
      current_fen = "start";
      turn_color = PlayerColor.w;
      pgn = "";
      version = 2;
      result = none;
      termination = none;
      time_initial_ms = pos 3000;
      increment_ms = pos 20;
      white_clock_ms = pos 3000;
      black_clock_ms = pos 3000;
      turn_started_at = some (pos 400);
      join_deadline_at = some (pos 800);
      reconnect_deadline_at = none;
      started_at = some (pos 400);
      ended_at = none;
    })
allocate-kickoff_example =
    allocate-kickoff false (pos 200) (pos 300) (pos 400) (11, 12) pairing lobby ada bob
      pairing-IsAdmissible lobby-IsAllocated fresh_ids refl refl

allocate-allocate_example :
    allocate (21, 22) pairing (allocate (11, 12) pairing lobby).1 ≡ allocate (11, 12) pairing lobby
allocate-allocate_example =
    allocate-allocate (11, 12) pairing lobby ada bob pairing-IsAdmissible lobby-IsAllocated refl
      refl (21, 22)

abbrev opening : List (ℤ × Operation)
opening = (pos 100, allocates (11, 12) pairing) ∷ []

opened_seat : is_seated 1 101 (run engine opening lobby).players ≡ true
unfolding run apply allocate allocate_in_transaction create_game guest_ids count_eligible
    allocated_tables new_game new_players new_assignments find_match find_allocation include_players
    with_guests find_game players_of
opened_seat = refl

opened_row : find_game 1 (run engine opening lobby).games ≡ some (new_game pairing)
unfolding run apply allocate allocate_in_transaction create_game guest_ids count_eligible
    allocated_tables new_game new_players new_assignments find_match find_allocation include_players
    with_guests find_game players_of
opened_row = refl

waiting_open : is_terminal (new_game pairing).status ≡ false
unfolding new_game
waiting_open = refl

run-one_open_game_example : ◌≡◌ {A = ℕ} 1 1
run-one_open_game_example =
    run-one_open_game engine opening lobby lobby-IsAllocated 1 1 101 (new_game pairing)
      (new_game pairing) opened_seat opened_seat opened_row opened_row waiting_open waiting_open

allocate_cases_example :
    let after = (allocate (11, 12) pairing lobby).1 in
    (after ≡ lobby)
    ⊎ (IsAdmissible pairing lobby × (after ≡ allocated_tables (11, 12) pairing lobby))
allocate_cases_example = allocate_cases (11, 12) pairing lobby
