-- ===== src/Lifecycle/Replay.antt =====
-- Resignation: its effect, its refusals, and the replay of an accepted one
-- (`resign` of prisma-game-lifecycle.repository.ts).
use mathlib.Core.Path.{subst}
use clu_chess.Base.{
  sym, ◌==◌, ◌≡◌, refl, Bool, true, false, ◌&&◌, Option, none, some, List, [], ◌∷◌, ◌++◌, ok, arith,
  Option-cases, Result, err, inl, inr, ◌⊎◌,
}
use clu_chess.Base.Number.{ℤ}
use clu_chess.Game.{PlayerColor, b, w, white_win, black_win, resignation}
use clu_chess.Game.Terminal.{OutcomeStatus, TerminalOutcome, resigned, derive_terminal_outcome}
use clu_chess.Store.Loading.{
  PersistedGame, load_game, find_command, player_for, players_of, is_first, is_second, guest_tuple,
}
use clu_chess.Store.LockedClock.{locked_clock, is_live, LockedGameClock}
use clu_chess.Store.Rows.{Uuid, PlayerRow, TerminalSubmission, Database, Slot}
use clu_chess.Store.Tables.{find-append, find-append_new, find, filter, update_where}
use clu_chess.Store.Tx.{thrown, unknown}
use clu_chess.Lifecycle.Finalize.{no_grace, release_players, finalize_terminal}
use clu_chess.Lifecycle.Resign.{
  ResignGame, resign, resign_in_transaction, resign_command, create_command, replay_result,
}
use clu_chess.Lifecycle.Settlement.{
  ended_event, ended_row, lock_game_clock-none, lock_game_clock_lem, finalize_terminal_lem,
  ended_tables, load_game_row, ended_tables-IsEnded,
}

abbrev pub resignation_outcome : PlayerColor → TerminalOutcome
resignation_outcome b = record {
  result = white_win;
  status = OutcomeStatus.completed;
  termination = resignation;
  winner = some w;
}
resignation_outcome w = record {
  result = black_win;
  status = OutcomeStatus.completed;
  termination = resignation;
  winner = some b;
}

pub resignation_outcome_lem :
    (c : PlayerColor) → derive_terminal_outcome (resigned c) ≡ ok (resignation_outcome c)
unfolding derive_terminal_outcome
resignation_outcome_lem b = refl
resignation_outcome_lem w = refl

abbrev pub resign_submission :
    PersistedGame → PlayerRow → PlayerRow → PlayerRow → ℤ → TerminalSubmission
resign_submission game p q player now = record {
  duplicate = false;
  ended = ended_event game (locked_clock game.game now) (resignation_outcome player.color);
  guest_session_ids = (p.guest_session_id, q.guest_session_id);
}

pub resigned_tables :
    PersistedGame → PlayerRow → PlayerRow → PlayerRow → ℤ → ResignGame → Database → Database
resigned_tables game p q player now input db =
    let db' =
      ended_tables game (locked_clock game.game now) (resignation_outcome player.color) db in
    record db' {
      commands = db'.commands ++ resign_command input (resign_submission game p q player now) ∷ [];
    }

pub ended_tables_commands :
    (id event : Uuid) (game : PersistedGame) (now : ℤ) (o : TerminalOutcome) (db : Database)
    → find_command id event (ended_tables game (locked_clock game.game now) o db)
      ≡ find_command id event db
unfolding find_command ended_tables release_players
ended_tables_commands id event game now o db = refl

pub resign_accepts :
    (db : Database) (game : PersistedGame) (p q player : PlayerRow) (now : ℤ) (input : ResignGame)
    → load_game input.game_id db ≡ some game
    → game.players ≡ p ∷ q ∷ []
    → player_for game input.guest_session_id ≡ some player
    → find_command input.game_id input.event_id db ≡ none
    → is_live game.game.status ≡ true
    → input.expected_version ≡ game.game.version
    → resign now input db
      ≡ (ok (resign_submission game p q player now), resigned_tables game p q player now input db)
unfolding resign resign_in_transaction create_command resigned_tables
resign_accepts db game p q player now input h e m fresh live version = ground (
  arith,
  lock_game_clock_lem input.game_id db game now h,
  resignation_outcome_lem player.color,
  finalize_terminal_lem input.game_id db game p q (locked_clock game.game now)
      (resignation_outcome player.color) h e,
  ended_tables_commands input.game_id input.event_id game now (resignation_outcome player.color) db,
)

-- A command that is stored for the event answers every later request of the same guest.
resign_replays :
    (db : Database) (game : PersistedGame) (player : PlayerRow) (now : ℤ) (input : ResignGame)
    (s : TerminalSubmission)
    → load_game input.game_id db ≡ some game
    → player_for game input.guest_session_id ≡ some player
    → find_command input.game_id input.event_id db ≡ some (resign_command input s)
    → resign now input db ≡ (ok (record s { duplicate = true }), db)
unfolding resign resign_in_transaction replay_result resign_command
resign_replays db game player now input s h m stored =
    ground (arith, lock_game_clock_lem input.game_id db game now h)

-- Clearing the graces keeps the members of a game.
abbrev cleared : Uuid → List PlayerRow → List PlayerRow
cleared id ps = update_where (λ p. p.game_id == id) no_grace ps

abbrev clear_player : Option PlayerRow → Option PlayerRow
clear_player none = none
clear_player (some p) = some (no_grace p)

abbrev with_guest : Uuid → PlayerRow → Bool
with_guest guest p = p.guest_session_id == guest

find-cleared :
    (id guest : Uuid) (slot : Slot → Bool) (ps : List PlayerRow)
    → find (with_guest guest) (filter (λ p. (p.game_id == id) && slot p.slot) (cleared id ps))
      ≡ clear_player (find (with_guest guest) (filter (λ p. (p.game_id == id) && slot p.slot) ps))
find-cleared id guest slot [] = refl
find-cleared id guest slot (p ∷ ps) = ground (arith, find-cleared id guest slot ps)

member_kept :
    (id guest : Uuid) (ps : List PlayerRow)
    → find (with_guest guest) (players_of id (cleared id ps))
      ≡ clear_player (find (with_guest guest) (players_of id ps))
unfolding players_of
member_kept id guest ps = ground (
  arith,
  find-append (with_guest guest) (filter (λ p. (p.game_id == id) && is_first p.slot) ps)
      (filter (λ p. (p.game_id == id) && is_second p.slot) ps),
  find-append (with_guest guest)
      (filter (λ p. (p.game_id == id) && is_first p.slot) (cleared id ps))
      (filter (λ p. (p.game_id == id) && is_second p.slot) (cleared id ps)),
  find-cleared id guest is_first ps,
  find-cleared id guest is_second ps,
)

resigned_player :
    (db : Database) (game : PersistedGame) (p q player : PlayerRow) (now : ℤ) (input : ResignGame)
    → load_game input.game_id db ≡ some game
    → player_for game input.guest_session_id ≡ some player
    → let db' = resigned_tables game p q player now input db in
      let game' : PersistedGame = record {
        game = ended_row (locked_clock game.game now) (resignation_outcome player.color) game.game;
        players = players_of input.game_id db'.players;
      } in
      (load_game input.game_id db' ≡ some game')
      × (player_for game' input.guest_session_id ≡ some (no_grace player))
unfolding resigned_tables ended_tables load_game player_for release_players
resigned_player db game p q player now input h m =
    let (found, same, members) = load_game_row input.game_id db game h in
    let locked = locked_clock game.game now in
    let o = resignation_outcome player.color in
    ground (
      arith,
      same,
      members,
      (ended_tables-IsEnded input.game_id db game locked o h).row,
      subst
          (λ i.
            find (with_guest input.guest_session_id)
              (players_of input.game_id (cleared i db.players))
            ≡ clear_player
                (find (with_guest input.guest_session_id) (players_of input.game_id db.players)))
          (sym same) (member_kept input.game_id input.guest_session_id db.players),
    )

resigned_command :
    (db : Database) (game : PersistedGame) (p q player : PlayerRow) (now : ℤ) (input : ResignGame)
    → find_command input.game_id input.event_id db ≡ none
    → find_command input.game_id input.event_id (resigned_tables game p q player now input db)
      ≡ some (resign_command input (resign_submission game p q player now))
unfolding resigned_tables ended_tables find_command release_players
resigned_command db game p q player now input fresh =
    find-append_new _ db.commands (resign_command input (resign_submission game p q player now))
      fresh (unfold resign_command in ground arith)

-- A resignation of a player of a live two-player game, at the game's version and with an unused
-- event id, is accepted; the same request at any later time gets the same acknowledgement,
-- marked as a duplicate, and changes nothing, although the game has ended.
pub resign-resign :
    (db : Database) (game : PersistedGame) (p q player : PlayerRow) (now later : ℤ)
    (input : ResignGame)
    → load_game input.game_id db ≡ some game
    → game.players ≡ p ∷ q ∷ []
    → player_for game input.guest_session_id ≡ some player
    → find_command input.game_id input.event_id db ≡ none
    → is_live game.game.status ≡ true
    → input.expected_version ≡ game.game.version
    → let (answer, db') = resign now input db in
      (answer ≡ ok (resign_submission game p q player now))
      × (resign later input db'
          ≡ (ok (record (resign_submission game p q player now) { duplicate = true }), db'))
resign-resign db game p q player now later input h e m fresh live version =
    let accepted = resign_accepts db game p q player now input h e m fresh live version in
    let (loaded, member) = resigned_player db game p q player now input h m in
    let again =
      resign_replays _ _ (no_grace player) later input (resign_submission game p q player now)
        loaded member (resigned_command db game p q player now input fresh) in
    rw accepted (refl, again)

-- Without two players the update does not begin.
pub finalize_terminal_throws :
    (game : PersistedGame) (locked : LockedGameClock) (o : TerminalOutcome) (db : Database)
    → ((p : PlayerRow) × (q : PlayerRow) × (game.players ≡ p ∷ q ∷ []))
      ⊎ (finalize_terminal game locked o db ≡ thrown unknown)
unfolding finalize_terminal guest_tuple
finalize_terminal_throws game locked o db = split game.players refl
  where
    split :
        (ps : List PlayerRow)
        → game.players ≡ ps
        → ((p : PlayerRow) × (q : PlayerRow) × (game.players ≡ p ∷ q ∷ []))
          ⊎ (finalize_terminal game locked o db ≡ thrown unknown)
    split [] e = inr (rw (e, finalize_terminal))
    split (p ∷ []) e = inr (rw (e, finalize_terminal))
    split (p ∷ q ∷ []) e = inl (p, q, e)
    split (p ∷ q ∷ r ∷ ps) e = inr (rw (e, finalize_terminal))

abbrev pub is_ok {ℓ κ} : {E : Type ℓ} {A : Type κ} → Result E A → Bool
is_ok (ok _) = true
is_ok (err _) = false

-- A resignation that is not accepted, whatever the reason, leaves all tables as they were.
pub resign_refused :
    (db : Database) (now : ℤ) (input : ResignGame)
    → is_ok (resign now input db).0 ≡ false
    → (resign now input db).1 ≡ db
unfolding resign resign_in_transaction create_command
resign_refused db now input refused = elim (Option-cases (load_game input.game_id db)) [
  | inl missing ↦ ground (arith, lock_game_clock-none input.game_id db now missing)
  | inr (game, h) ↦ elim (Option-cases (player_for game input.guest_session_id)) [
    | inl stranger ↦ ground (arith, lock_game_clock_lem input.game_id db game now h)
    | inr (player, m) ↦
        elim (finalize_terminal_throws game (locked_clock game.game now)
          (resignation_outcome player.color) db) [
            | inl (p, q, e) ↦ ground (
              arith,
              lock_game_clock_lem input.game_id db game now h,
              resignation_outcome_lem player.color,
              finalize_terminal_lem input.game_id db game p q (locked_clock game.game now)
                  (resignation_outcome player.color) h e,
              ended_tables_commands input.game_id input.event_id game now
                  (resignation_outcome player.color) db,
            )
            | inr t ↦ ground (
              arith,
              lock_game_clock_lem input.game_id db game now h,
              resignation_outcome_lem player.color,
              t,
            )
          ]
  ]
]
