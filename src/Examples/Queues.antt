-- ===== src/Examples/Queues.antt =====
-- A queue of three guests, of whom the first has gone.
use clu_chess.Base.{
  ◌⊎◌, ◌*◌, ◌+◌, ◌≤◌, ◌≡◌, refl, ◌==◌, true, none, some, List, [], ◌∷◌, ◌++◌, ok, err, arith,
  if◌then◌else◌,
}
use clu_chess.Base.Number.{ℤ, pos, ◌+ℤ◌, ◌-ℤ◌}
use clu_chess.Game.{w}
use clu_chess.Chess.{ChessEngine, ChessEngineErrorCode, ongoing}
use clu_chess.Store.Loading.{find_assignment}
use clu_chess.Store.Rows.{Uuid}
use clu_chess.Allocation.Allocate.{allocated_tables}
use clu_chess.Allocation.Answer.{allocate_lem, new_record}
use clu_chess.Allocation.Queries.{find_by_match_id, guest_match_eligibility}
use clu_chess.Allocation.Records.{GameAllocation, find_match, include_players}
use clu_chess.Matchmaking.Attempts.{attempt_commits, attempt_returns, request_of}
use clu_chess.Matchmaking.Conservation.{attempt_of, count-try_match, outcome}
use clu_chess.Matchmaking.Draining.{drain_bounded, games_of}
use clu_chess.Matchmaking.Exclusive.{IsExclusive}
use clu_chess.Matchmaking.Histories.{
  Script, enqueues, leaves, matches, finalizes, sweeps, run, run-IsExclusive,
}
use clu_chess.Matchmaking.Matching.{
  MatchRequest, try_match, scan, turn, examine, reason_of, asked, discard, conclude, reserve,
  reservation_of,
}
use clu_chess.Matchmaking.Pairs.{IsFinal, IsWaiting, free_guest}
use clu_chess.Matchmaking.Redis.{
  Ticket, queued, MatchReservation, Redis, put, is_present, prune_presence, live_connections,
}
use clu_chess.Matchmaking.Service.{
  World, Settings, Draw, Thrown, chess_error, empty_effects, allocate_reservation, allocation_of,
  attempt_match, drain,
}
use clu_chess.Matchmaking.Settling.{finalize}
use clu_chess.Matchmaking.Tickets.{count, count_removed, IsUnique}
use clu_chess.Examples.{engine}
use clu_chess.Examples.Openings.{lobby, ada, bob, pairing, pairing-IsAdmissible, lobby-IsAllocated}

abbrev ticket : Uuid → ℤ → Ticket
ticket guest score = record { guest = guest; score = score }

abbrev line : Redis
line = record {
  queue = ticket 103 (pos 40) ∷ ticket 101 (pos 50) ∷ ticket 102 (pos 60) ∷ [];
  guards = λ g. true;
  states = λ g. some queued;
  active = λ g. none;
  presence = λ g. if g == 103 then [] else pos 1000 ∷ [];
  reservations = λ id. none;
}

line-IsUnique : IsUnique line.queue
line-IsUnique g = ground arith

line-IsExclusive : IsExclusive line
line-IsExclusive = record {
  unique = line-IsUnique;
  waiting = λ g h. refl;
  held = λ id g m h k. cc h;
  apart = λ id other g m m' h h' k k'. cc h;
}

abbrev settings : Settings
settings = record {
  batch_size = 10;
  increment_ms = pos 20;
  initial_ms = pos 3000;
  join_deadline_ms = pos 700;
  max_wait_ms = pos 5000;
}

abbrev draw : Draw
draw = record { match_id = 7; game_id = 1; first_is_white = true; player_ids = (11, 12) }

abbrev chess : ChessEngine
chess = record engine {
  new_game = ok (record { fen = "start"; game_over = ongoing; pgn = ""; ply_count = 0; turn = w });
}

abbrev world : World
world = record { db = lobby; redis = line }

abbrev request : MatchRequest
request = request_of settings chess draw (pos 100)

abbrev pair : MatchReservation
pair = record {
  a = 101;
  a_score = pos 50;
  b = 102;
  b_score = pos 60;
  created_at = pos 100;
  game_id = 1;
  match_id = 7;
}

count-try_match_example : outcome 103 (attempt_of (try_match request line)) ≡ count 103 line.queue
count-try_match_example = count-try_match 103 request line line-IsUnique

paired : (attempt_of (try_match request line)).0.reservation ≡ some pair
unfolding try_match scan turn examine reason_of asked discard conclude reserve reservation_of
    is_present prune_presence live_connections put ◌-ℤ◌
paired = refl

here_a : is_present (pos 100) 101 (attempt_of (try_match request line)).1 ≡ true
unfolding try_match scan turn examine reason_of asked discard conclude reserve reservation_of
    is_present prune_presence live_connections put ◌-ℤ◌
here_a = refl

here_b : is_present (pos 100) 102 (attempt_of (try_match request line)).1 ≡ true
unfolding try_match scan turn examine reason_of asked discard conclude reserve reservation_of
    is_present prune_presence live_connections put ◌-ℤ◌
here_b = refl

abbrev made : GameAllocation
made = new_record (11, 12) pairing lobby ada bob

allocates_pair :
    allocate_reservation settings chess draw pair (pos 100) lobby
    ≡ (ok made, allocated_tables (11, 12) pairing lobby)
unfolding allocate_reservation allocation_of ◌+ℤ◌
allocates_pair = ground (
  arith,
  allocate_lem (11, 12) pairing lobby ada bob pairing-IsAdmissible lobby-IsAllocated refl refl,
)

attempt_commits_example :
    let (attempt, r) = attempt_of (try_match request line) in
    (attempt_match settings chess draw (pos 100) world ≡ (
      ok (record empty_effects { allocations = made ∷ []; removed = attempt.discarded ++ [] }),
      record { db = allocated_tables (11, 12) pairing lobby; redis = (finalize pair r).1 },
    ))
    × IsFinal pair (finalize pair r).1
attempt_commits_example =
    attempt_commits settings chess draw (pos 100) world pair made
      (allocated_tables (11, 12) pairing lobby) paired allocates_pair

-- An engine that cannot set up a game.
abbrev broken : Thrown
broken = chess_error ChessEngineErrorCode.invalid_initial_position

fails : allocate_reservation settings engine draw pair (pos 100) lobby ≡ (err broken, lobby)
unfolding allocate_reservation
fails = refl

unknown_match : find_by_match_id 7 lobby ≡ ok none
unfolding find_by_match_id find_match include_players
unknown_match = refl

free_a : guest_match_eligibility 101 (pos 100) lobby ≡ free_guest
unfolding guest_match_eligibility find_assignment
free_a = refl

free_b : guest_match_eligibility 102 (pos 100) lobby ≡ free_guest
unfolding guest_match_eligibility find_assignment
free_b = refl

attempt_returns_example :
    let (attempt, r) = attempt_of (try_match request line) in
    let (answer, after) = attempt_match settings engine draw (pos 100) world in
    (answer
      ≡ ok (record {
        allocations = [];
        requeued = ticket 101 (pos 50) ∷ ticket 102 (pos 60) ∷ [];
        removed = attempt.discarded ++ [];
      }))
    × IsWaiting pair r after.redis
    × ((g : Uuid)
        → count g after.redis.queue + count_removed g attempt.discarded ≡ count g line.queue)
attempt_returns_example =
    attempt_returns settings engine draw (pos 100) world pair broken lobby line-IsUnique paired
      fails unknown_match free_a free_b here_a here_b

drain_bounded_example :
    let games = games_of (drain settings chess (λ n. draw) (pos 100) world) in
    (games ≤ 1) ⊎ (games * 2 ≤ settings.batch_size)
drain_bounded_example = drain_bounded settings chess (λ n. draw) (pos 100) world

abbrev evening : List Script
evening =
    leaves 103
    ∷ enqueues 104 (pos 70)
    ∷ matches request
    ∷ finalizes pair
    ∷ sweeps (pos 9000) (pos 5000) 10
    ∷ []

run-IsExclusive_example : IsExclusive (run evening line)
run-IsExclusive_example = run-IsExclusive evening line line-IsExclusive
