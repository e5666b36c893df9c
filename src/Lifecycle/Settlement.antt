-- ===== src/Lifecycle/Settlement.antt =====
-- What `finalizeTerminal` of prisma-game-lifecycle.repository.ts does to the tables.
use mathlib.Core.Path.{subst}
use clu_chess.Base.{
  Bool, true, not, ◌+◌, sym, ◌==◌, ◌≡◌, ◌≢◌, refl, false, ◌&&◌, Option, none, some, List, [], ◌∷◌,
  any, arith,
}
use clu_chess.Base.Number.{ltb_ℤ, ◌-ℤ◌, ℤ, pos, ◌≤ℤ◌}
use clu_chess.Game.{GameStatus}
use clu_chess.Game.Terminal.{abandoned, completed, expired, TerminalOutcome}
use clu_chess.Store.Codec.{persisted_result, persisted_termination}
use clu_chess.Store.Loading.{PersistedGame, load_game, guest_tuple, players_of, lock_game_clock}
use clu_chess.Store.LockedClock.{LockedGameClock, locked_clock, is_live}
use clu_chess.Store.Rows.{EndedGame, Uuid, GameRow, PlayerRow, Database, AssignmentRow}
use clu_chess.Store.Soundness.{
  IsSound, IsConsistent, IsConsistent-same, end-IsConsistent, locked_clock_nonneg, has_assignment,
}
use clu_chess.Store.Tables.{
  find_game, update_game, update_where, delete_where, update_game_hit, update_game_other,
  any-delete_where, find_game-id,
}
use clu_chess.Store.Tx.{next, returned}
use clu_chess.Lifecycle.Ending.{is_set}
use clu_chess.Lifecycle.Finalize.{
  finalize_terminal, terminal_row, no_grace, release_players, update_game_row, ended_game,
}

-- A loaded game is the row that the id finds.
loaded_row :
    (id : Uuid) (players : List PlayerRow) (o : Option GameRow) (game : PersistedGame)
    → elim o [ none ↦ none | some g ↦ some (record { game = g; players = players }) ] ≡ some game
    → (o ≡ some game.game) × (game.players ≡ players)
loaded_row id players none game h = cc
loaded_row id players (some g) game h = (ground arith, ground arith)

pub load_game_row :
    (id : Uuid) (db : Database) (game : PersistedGame)
    → load_game id db ≡ some game
    → (find_game id db.games ≡ some game.game)
      × (game.game.id ≡ id)
      × (game.players ≡ players_of id db.players)
unfolding load_game
load_game_row id db game h =
    let (found, members) =
      loaded_row id (players_of id db.players) (find_game id db.games) game h in
    (found, find_game-id id db.games game.game found, members)

pub lock_game_clock_lem :
    (id : Uuid) (db : Database) (game : PersistedGame) (now : ℤ)
    → load_game id db ≡ some game
    → lock_game_clock now id db ≡ some (locked_clock game.game now)
unfolding lock_game_clock
lock_game_clock_lem id db game now h = rw ((load_game_row id db game h).0, lock_game_clock)

pub lock_game_clock-none :
    (id : Uuid) (db : Database) (now : ℤ)
    → load_game id db ≡ none
    → lock_game_clock now id db ≡ none
unfolding lock_game_clock load_game
lock_game_clock-none id db now h = ground arith

-- By its own id.
pub load_game_self :
    (id : Uuid) (db : Database) (game : PersistedGame)
    → load_game id db ≡ some game
    → find_game game.game.id db.games ≡ some game.game
load_game_self id db game h =
    let (found, same, _) = load_game_row id db game h in
    subst (λ i. find_game i db.games ≡ some game.game) (sym same) found

-- The database's limits at a moment: the time since the turn began fits in 32 bits, and the game has
-- not started later.
abbrev pub is_timely : GameRow → ℤ → Bool
is_timely g now =
    elim g.turn_started_at [ none ↦ true | some t ↦ ltb_ℤ (now -ℤ t) (pos 2147483648) ]
    && elim g.started_at [ none ↦ true | some t ↦ not (ltb_ℤ now t) ]

-- What an end should leave of the game's row, independently of the update.
abbrev pub ended_row : LockedGameClock → TerminalOutcome → GameRow → GameRow
ended_row locked outcome g = record g {
  black_clock_ms = locked.black_clock_ms;
  ended_at = some locked.observed_at;
  reconnect_deadline_at = none;
  result = some (persisted_result outcome.result);
  status = elim outcome.status [
    | abandoned ↦ GameStatus.abandoned
    | completed ↦ GameStatus.completed
    | expired ↦ GameStatus.expired
  ];
  termination = some (persisted_termination outcome.termination);
  turn_started_at = none;
  version = g.version + 1;
  white_clock_ms = locked.white_clock_ms;
}

-- The tables that an end should leave, independently of the update.
unfoldable pub ended_tables :
    PersistedGame → LockedGameClock → TerminalOutcome → Database → Database
ended_tables game locked outcome db = record db {
  games = (update_game game.game.id game.game.version (ended_row locked outcome) db.games).1;
  players =
      update_where (λ p. p.game_id == game.game.id)
        (λ p. record p { disconnected_at = none; reconnect_grace_ends_at = none }) db.players;
  assignments = delete_where (λ a. a.game_id == game.game.id) db.assignments;
}

-- What should be told of an end, independently of `ended_game`.
abbrev pub ended_event : PersistedGame → LockedGameClock → TerminalOutcome → EndedGame
ended_event game locked outcome = record {
  clocks = record {
    black_ms = locked.black_clock_ms;
    observed_at = locked.observed_at;
    running = none;
    white_ms = locked.white_clock_ms;
  };
  final_fen = game.game.current_fen;
  game_id = game.game.id;
  game_version = game.game.version + 1;
  pgn = game.game.pgn;
  result = outcome.result;
  termination = outcome.termination;
}

guest_tuple_lem :
    {R : Type 0} (ps : List PlayerRow) (p q : PlayerRow) (db : Database)
    → ps ≡ p ∷ q ∷ []
    → guest_tuple {R = R} ps db ≡ next (p.guest_session_id, q.guest_session_id) db
unfolding guest_tuple
guest_tuple_lem ps p q db e = rw e

pub update_game_row_lem :
    {R : Type 0} (g : GameRow) (f : GameRow → GameRow) (db : Database)
    → find_game g.id db.games ≡ some g
    → (f g).id ≡ g.id
    → update_game_row {R = R} g.id g.version f db
      ≡ next 1 (record db { games = (update_game g.id g.version f db.games).1 })
unfolding update_game_row
update_game_row_lem g f db h k = rw ((update_game_hit g.id f g db.games h k).0)

pub finalize_terminal_lem :
    (id : Uuid) (db : Database) (game : PersistedGame) (p q : PlayerRow) (locked : LockedGameClock)
    (outcome : TerminalOutcome)
    → load_game id db ≡ some game
    → game.players ≡ p ∷ q ∷ []
    → finalize_terminal game locked outcome db
      ≡ returned
          (some (record {
            duplicate = false;
            ended = ended_event game locked outcome;
            guest_session_ids = (p.guest_session_id, q.guest_session_id);
          }))
          (ended_tables game locked outcome db)
unfolding finalize_terminal ended_tables terminal_row release_players ended_game
finalize_terminal_lem id db game p q locked outcome h e =
    rw (guest_tuple_lem game.players p q db e, finalize_terminal)
      (rw (
        update_game_row_lem game.game (terminal_row locked outcome) db (load_game_self id db game h)
            refl,
        finalize_terminal,
      ))

-- A terminal row is sound, if the clocks it is given are no less than 0.
terminal_row-IsSound :
    (locked : LockedGameClock) (outcome : TerminalOutcome) (g : GameRow)
    → pos 0 ≤ℤ locked.white_clock_ms
    → pos 0 ≤ℤ locked.black_clock_ms
    → IsSound g
    → IsSound (terminal_row locked outcome g)
unfolding terminal_row is_live
terminal_row-IsSound locked outcome g hw hb h = ground arith

-- The terminal update of a loaded game, with the times that are read under the lock at any
-- moment, leaves consistent tables consistent.
pub ended_tables-IsConsistent :
    (id : Uuid) (db : Database) (game : PersistedGame) (now : ℤ) (outcome : TerminalOutcome)
    → load_game id db ≡ some game
    → IsConsistent db
    → IsConsistent (ended_tables game (locked_clock game.game now) outcome db)
unfolding ended_tables release_players terminal_row
ended_tables-IsConsistent id db game now outcome h v =
    let locked = locked_clock game.game now in
    let (hw, hb) =
      locked_clock_nonneg game.game now (v.sound _ game.game (load_game_self id db game h)) in
    IsConsistent-same _
      (end-IsConsistent db game.game.id game.game.version (terminal_row locked outcome) (λ x. refl)
        (λ x _ s. terminal_row-IsSound locked outcome x hw hb s) v)
      refl refl

-- What is left when a game has ended: its row is terminal, with the outcome and one version more,
-- nobody is assigned to it or awaited in it, and no other row has changed.
pub record IsEnded (id : Uuid) (locked : LockedGameClock) (outcome : TerminalOutcome) (g : GameRow)
    (db db' : Database) : Type 0 where
  pub row : find_game id db'.games ≡ some (ended_row locked outcome g)
  pub released : has_assignment id db'.assignments ≡ false
  pub no_grace :
      any (λ p. (p.game_id == id) && is_set p.reconnect_grace_ends_at) db'.players ≡ false
  pub other_games : (i : Uuid) → id ≢ i → find_game i db'.games ≡ find_game i db.games
  pub other_assignments :
      (i : Uuid) → id ≢ i → has_assignment i db'.assignments ≡ has_assignment i db.assignments
  pub moves : db'.moves ≡ db.moves
  pub commands : db'.commands ≡ db.commands
  pub guests : db'.guests ≡ db.guests

grace_cleared :
    (id : Uuid) (ps : List PlayerRow)
    → any
        (λ p. (p.game_id == id) && is_set p.reconnect_grace_ends_at)
        (update_where (λ p. p.game_id == id) no_grace ps)
      ≡ false
grace_cleared id [] = refl
grace_cleared id (p ∷ ps) = ground (arith, grace_cleared id ps)

others_kept :
    (id i : Uuid) (rows : List AssignmentRow)
    → id ≢ i
    → has_assignment i (delete_where (λ a. a.game_id == id) rows) ≡ has_assignment i rows
others_kept id i [] h = refl
others_kept id i (a ∷ rows) h = ground (arith, others_kept id i rows h)

pub ended_tables-IsEnded :
    (id : Uuid) (db : Database) (game : PersistedGame) (locked : LockedGameClock)
    (outcome : TerminalOutcome)
    → load_game id db ≡ some game
    → IsEnded game.game.id locked outcome game.game db (ended_tables game locked outcome db)
unfolding ended_tables release_players terminal_row
ended_tables-IsEnded id db game locked outcome h = record {
  row =
      (update_game_hit game.game.id (terminal_row locked outcome) game.game db.games
        (load_game_self id db game h) refl).1;
  released = any-delete_where (λ a. a.game_id == game.game.id) db.assignments;
  no_grace = grace_cleared game.game.id db.players;
  other_games = λ i ne.
      update_game_other game.game.id i game.game.version (terminal_row locked outcome) db.games ne
        (λ x. refl);
  other_assignments = λ i ne. others_kept game.game.id i db.assignments ne;
  moves = refl;
  commands = refl;
  guests = refl;
}

-- The terminal update of a loaded two-player game, within the limits of the database, succeeds:
-- the submission tells the end with the outcome, the position, the clocks and the version of
-- the row; the row has the status, the result and the termination of the outcome, the times of
-- the lock, no running turn, the end at the moment of the lock and one version more; nobody is
-- assigned to the game, no grace runs in it, and all other games, their assignments, the moves,
-- the commands and the guests are as before.
pub finalize_terminal-IsEnded :
    (id : Uuid) (db : Database) (game : PersistedGame) (p q : PlayerRow) (locked : LockedGameClock)
    (outcome : TerminalOutcome)
    → load_game id db ≡ some game
    → game.players ≡ p ∷ q ∷ []
    → is_timely game.game locked.observed_at ≡ true
    → (after : Database) × (finalize_terminal game locked outcome db
        ≡ returned
            (some (record {
              duplicate = false;
              ended = ended_event game locked outcome;
              guest_session_ids = (p.guest_session_id, q.guest_session_id);
            }))
            after)
      × IsEnded game.game.id locked outcome game.game db after
finalize_terminal-IsEnded id db game p q locked outcome h e timely = (
  ended_tables game locked outcome db,
  finalize_terminal_lem id db game p q locked outcome h e,
  ended_tables-IsEnded id db game locked outcome h,
)
