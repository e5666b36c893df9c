-- ===== src/Services/Opening.antt =====
-- What `ready` of game-room.service.ts answers to a player of a waiting game.
use mathlib.Core.Path.{subst}
use clu_chess.Base.{
  ◌∙◌, ◌+◌, Option, [], ◌∷◌, Result, ok, err, ◌≡◌, refl, Bool, true, false, none, some, arith,
  if◌then◌else◌,
}
use clu_chess.Base.Number.{ℤ}
use clu_chess.Game.{PlayerColor, in_progress, waiting_for_players, eq_status}
use clu_chess.Store.Loading.{players_of}
use clu_chess.Store.Rows.{PlayerRow, StartedGame, GameRow, Database}
use clu_chess.Store.Tables.{find_game}
use clu_chess.Lifecycle.Ending.{is_set}
use clu_chess.Lifecycle.Resign.{Failure}
use clu_chess.Allocation.Joining.{bump, readied_tables}
use clu_chess.Allocation.Readiness.{ready_request, ready_lem, readied-IsRoom}
use clu_chess.Allocation.Ready.{joining, ready_row}
use clu_chess.Allocation.Records.{SeatedPlayer, map_game, map_allocation}
use clu_chess.Allocation.Rooms.{IsRoom, seat_joining, white_of, black_of}
use clu_chess.Allocation.Start.{started_row}
use clu_chess.Allocation.Starting.{started_tables, start_if_ready_lem}
use clu_chess.Services.Room.{GameSnapshotView, ready_player, snapshot, with_started, start_event}

module _ (side : Bool) (t1 t2 t3 : ℤ) (g : GameRow) (s o : SeatedPlayer) (db : Database)
    (h : IsRoom g (white_of side s o) (black_of side s o) db)
    (waiting : g.status ≡ waiting_for_players) where
  -- The tables after the first of the two statements.
  joined_tables : Bool → Database
  joined_tables other = readied_tables other (ready_request t1 g s) g s db

  abbrev started_game : GameRow
  started_game = bump (started_row t2) (bump ready_row g)

  first_ready :
      is_set o.player.joined_at ≡ false
      → ready_player (ready_request t1 g s) t2 t3 db ≡ (
        with_started none (snapshot t3 g.id s.player.guest_session_id (joined_tables false)),
        joined_tables false,
      )
  unfolding ready_player map_allocation map_game joined_tables eq_status
  first_ready e = ground (arith, ready_lem side t1 g s o db h waiting false e, waiting)

  second-IsRoom :
      IsRoom
        (bump ready_row g)
        (white_of side (seat_joining t1 s) o)
        (black_of side (seat_joining t1 s) o)
        (joined_tables true)
  unfolding joined_tables
  second-IsRoom = readied-IsRoom side t1 g s o db h waiting side true refl

  second_ready :
      is_set o.player.joined_at ≡ true
      → let after = started_tables t2 (bump ready_row g) (joined_tables true) in
        ready_player (ready_request t1 g s) t2 t3 db ≡ (
          with_started
              (some (start_event (map_game started_game) t2))
              (snapshot t3 g.id s.player.guest_session_id after),
          after,
        )
  unfolding ready_player map_allocation map_game joined_tables eq_status
  second_ready e = ground (
    arith,
    ready_lem side t1 g s o db h waiting true e,
    (start_if_ready_lem t2 (bump ready_row g) (white_of side (seat_joining t1 s) o)
        (black_of side (seat_joining t1 s) o) (joined_tables true) second-IsRoom refl).0,
  )

  -- Either case.
  ready_player_tables :
      (other : Bool)
      → is_set o.player.joined_at ≡ other
      → let joined = readied_tables other (ready_request t1 g s) g s db in
        let after = if other then started_tables t2 (bump ready_row g) joined else joined in
        let started =
          if other
          then some (start_event (map_game (bump (started_row t2) (bump ready_row g))) t2)
          else none in
        ready_player (ready_request t1 g s) t2 t3 db
        ≡ (with_started started (snapshot t3 g.id s.player.guest_session_id after), after)
  unfolding joined_tables
  ready_player_tables true e = second_ready e
  ready_player_tables false e = first_ready e

  -- The row of the game, of the player and the event, as they should be.
  abbrev pub row_left : Bool → GameRow
  row_left false = g
  row_left true = record g {
    status = in_progress;
    started_at = some t2;
    turn_started_at = some t2;
    version = g.version + 2;
  }

  abbrev pub player_left : PlayerRow
  player_left = record s.player {
    connected_at = some t1;
    joined_at = some (elim s.player.joined_at [ none ↦ t1 | some t ↦ t ]);
  }

  abbrev pub event_told : Bool → Option StartedGame
  event_told false = none
  event_told true = some (record {
    clocks = record {
      black_ms = g.black_clock_ms;
      observed_at = t2;
      running = some PlayerColor.w;
      white_ms = g.white_clock_ms;
    };
    game_id = g.id;
    game_version = g.version + 2;
    initial_fen = g.initial_fen;
  })

  after_either : Bool → Database
  after_either other =
      let joined = readied_tables other (ready_request t1 g s) g s db in
      if other then started_tables t2 (bump ready_row g) joined else joined

  answered :
      (started : Option StartedGame) (r : Result Failure GameSnapshotView)
      → with_started started r
        ≡ elim r [ ok view ↦ ok (record { snapshot = view; started = started }) | err e ↦ err e ]
  answered started (ok view) = refl
  answered started (err e) = refl

  started_left : started_game ≡ row_left true
  started_left = ground arith

  left-IsRoom :
      (other : Bool)
      → IsRoom
          (row_left other)
          (white_of side (seat_joining t1 s) o)
          (black_of side (seat_joining t1 s) o)
          (after_either other)
  unfolding after_either joined_tables
  left-IsRoom false = readied-IsRoom side t1 g s o db h waiting side false refl
  left-IsRoom true =
      subst
        (λ r.
          IsRoom r (white_of side (seat_joining t1 s) o) (black_of side (seat_joining t1 s) o)
            (after_either true))
        started_left
        (start_if_ready_lem t2 (bump ready_row g) (white_of side (seat_joining t1 s) o)
          (black_of side (seat_joining t1 s) o) (joined_tables true) second-IsRoom refl).1

  seats_left :
      (side' : Bool)
      → (white_of side' (seat_joining t1 s) o).player
          ∷ (black_of side' (seat_joining t1 s) o).player
          ∷ []
        ≡ (if side' then player_left ∷ o.player ∷ [] else o.player ∷ player_left ∷ [])
  unfolding joining
  seats_left true = ground arith
  seats_left false = ground arith

  told_event : some (start_event (map_game started_game) t2) ≡ event_told true
  unfolding map_game
  told_event = ground arith

  ready_told :
      (other : Bool)
      → is_set o.player.joined_at ≡ other
      → ready_player (ready_request t1 g s) t2 t3 db ≡ (
        with_started
            (event_told other)
            (snapshot t3 g.id s.player.guest_session_id (after_either other)),
        after_either other,
      )
  unfolding after_either
  ready_told true e = rw⁻¹ told_event (ready_player_tables true e)
  ready_told false e = ready_player_tables false e

  row_found : (other : Bool) → find_game g.id (after_either other).games ≡ some (row_left other)
  row_found true = (left-IsRoom true).found
  row_found false = (left-IsRoom false).found

  members_left :
      (other : Bool)
      → players_of g.id (after_either other).players
        ≡ (if side then player_left ∷ o.player ∷ [] else o.player ∷ player_left ∷ [])
  members_left true = (left-IsRoom true).members ∙ seats_left side
  members_left false = (left-IsRoom false).members ∙ seats_left side

  -- A player of a game that waits for its players, whose rows and whose opponent's rows are
  -- found, is made ready at once, and recorded as there and as joined, since then or before. If
  -- the opponent has joined, the game is started in the same call: it is IN_PROGRESS since the
  -- time of the start, two versions on, and the answer announces the start at that time with
  -- both clocks and white's running; else the game's row stays and nothing is announced. The
  -- answer shows the game as the tables hold it after the call, or has the error of showing it.
  pub ready_player_lem :
      (other : Bool)
      → elim o.player.joined_at [ none ↦ false | some _ ↦ true ] ≡ other
      → let (answer, after) = ready_player (ready_request t1 g s) t2 t3 db in
        (answer ≡ elim (snapshot t3 g.id s.player.guest_session_id after) [
          | ok view ↦ ok (record { snapshot = view; started = event_told other })
          | err e ↦ err e
        ])
        × (find_game g.id after.games ≡ some (row_left other))
        × (players_of g.id after.players
            ≡ (if side then player_left ∷ o.player ∷ [] else o.player ∷ player_left ∷ []))
  unfolding after_either
  ready_player_lem other e =
      rw (ready_told other e) (answered (event_told other) _, row_found other, members_left other)
