-- ===== src/Lifecycle/Adjudication.antt =====
-- When the clock, a missing player or an absent one ends a game
-- (prisma-game-lifecycle.repository.ts).
use clu_chess.Base.{
  Bool, err, map, not, ◌||◌, ◌≡◌, refl, true, false, Option, none, some, [], ◌∷◌, Result, ok, arith,
  if◌then◌else◌, List,
}
use clu_chess.Base.Number.{ℤ, pos, ◌+ℤ◌, ltb_ℤ, +ℤ_parts, -ℤ_parts, ◌-ℤ◌}
use clu_chess.Game.{
  eq_color, ready, in_progress, GameDomainError, abandonment, waiting_for_players, reconnecting,
  eq_status, PlayerColor, b, w, white_win, black_win, timeout,
}
use clu_chess.Game.Terminal.{
  absence, OutcomeStatus, TerminalOutcome, timed_out, derive_terminal_outcome,
}
use clu_chess.Game.Terminal.Presence.{
  has, absence_outcome, no_show_outcome, derive_abandonment_lem, derive_no_show_lem,
}
use clu_chess.Store.Loading.{find_assignment, player_for, PersistedGame, load_game}
use clu_chess.Store.LockedClock.{locked_clock, is_live}
use clu_chess.Store.Rows.{Uuid, GameRow, PlayerRow, TerminalSubmission, Database}
use clu_chess.Store.Soundness.{IsSound}
use clu_chess.Store.Tx.{settle, or_throw, ◌>>=◌, unknown, DatabaseErrorKind}
use clu_chess.Lifecycle.Ending.{
  adjudicate_no_show, no_show_in_transaction, joined_colors, not_due, adjudicate_abandonment,
  abandonment_in_transaction, absent_players, without_grace, grace_due, terminate_for_reset,
  reset_in_transaction, adjudicate_timeout, timeout_in_transaction, locked_remaining,
  stored_remaining,
}
use clu_chess.Lifecycle.Finalize.{finalize_terminal}
use clu_chess.Lifecycle.Settlement.{
  is_timely, ended_event, lock_game_clock_lem, finalize_terminal_lem, ended_tables,
}

-- The submission of a game that ends now, and the tables after it.
abbrev pub ends_with :
    PersistedGame
    → PlayerRow
    → PlayerRow
    → ℤ
    → TerminalOutcome
    → Database
    → Result DatabaseErrorKind (Option TerminalSubmission) × Database
ends_with game p q now outcome db =
    let locked = locked_clock game.game now in
    (
      ok (
          some (record {
            duplicate = false;
            ended = ended_event game locked outcome;
            guest_session_ids = (p.guest_session_id, q.guest_session_id);
          })),
      ended_tables game locked outcome db,
    )

-- The opponent of the player to move wins on time.
abbrev pub timeout_outcome : PlayerColor → TerminalOutcome
timeout_outcome b = record {
  result = white_win;
  status = OutcomeStatus.completed;
  termination = timeout;
  winner = some w;
}
timeout_outcome w = record {
  result = black_win;
  status = OutcomeStatus.completed;
  termination = timeout;
  winner = some b;
}

pub locked_fields :
    (g : GameRow) (now : ℤ)
    → ((locked_clock g now).status ≡ g.status)
      × ((locked_clock g now).observed_at ≡ now)
      × ((locked_clock g now).turn_color ≡ g.turn_color)
unfolding locked_clock
locked_fields g now = (refl, refl, refl)

timeout_outcome_lem :
    (c : PlayerColor) → derive_terminal_outcome (timed_out c) ≡ ok (timeout_outcome c)
unfolding derive_terminal_outcome
timeout_outcome_lem b = refl
timeout_outcome_lem w = refl

-- Under the lock time is left exactly until the deadline.
locked_remaining-deadline :
    (g : GameRow) (now t : ℤ)
    → IsSound g
    → is_live g.status ≡ true
    → g.turn_started_at ≡ some t
    → ltb_ℤ (pos 0) (locked_remaining (locked_clock g now)) ≡ ltb_ℤ now (t +ℤ stored_remaining g)
unfolding locked_remaining locked_clock stored_remaining
locked_remaining-deadline g now t h live started = ground (
  arith,
  -ℤ_parts now t,
  -ℤ_parts g.white_clock_ms (now -ℤ t),
  -ℤ_parts g.black_clock_ms (now -ℤ t),
  +ℤ_parts t g.white_clock_ms,
  +ℤ_parts t g.black_clock_ms,
)

-- Within the limits of the database, a live two-player game whose row is sound and whose turn
-- began at t is ended by a timeout, in favour of the opponent of the player to move, exactly if
-- the moment is not before t and the stored time of that player; before it nothing happens.
pub adjudicate_timeout_lem :
    (id : Uuid) (db : Database) (game : PersistedGame) (p q : PlayerRow) (now t : ℤ)
    → load_game id db ≡ some game
    → game.players ≡ p ∷ q ∷ []
    → IsSound game.game
    → is_live game.game.status ≡ true
    → game.game.turn_started_at ≡ some t
    → is_timely game.game now ≡ true
    → let g = game.game in
      let left : ℤ = elim g.turn_color [ w ↦ g.white_clock_ms | b ↦ g.black_clock_ms ] in
      adjudicate_timeout now id db ≡ (
        if ltb_ℤ now (t +ℤ left)
        then (ok none, db)
        else ends_with game p q now (timeout_outcome g.turn_color) db)
unfolding adjudicate_timeout timeout_in_transaction stored_remaining eq_color
adjudicate_timeout_lem id db game p q now t h e s live started timely = ground (
  arith,
  lock_game_clock_lem id db game now h,
  locked_fields game.game now,
  locked_remaining-deadline game.game now t s live started,
  timeout_outcome_lem game.game.turn_color,
  finalize_terminal_lem id db game p q (locked_clock game.game now)
      (timeout_outcome game.game.turn_color) h e,
)

-- The end of a game by an outcome that may fail to be derived.
abbrev pub concluded :
    PersistedGame
    → PlayerRow
    → PlayerRow
    → ℤ
    → Result GameDomainError TerminalOutcome
    → Database
    → Result DatabaseErrorKind (Option TerminalSubmission) × Database
concluded game p q now (ok outcome) db = ends_with game p q now outcome db
concluded game p q now (err _) db = (err unknown, db)

finalized :
    (id : Uuid) (db : Database) (game : PersistedGame) (p q : PlayerRow) (now : ℤ)
    (r : Result GameDomainError TerminalOutcome)
    → load_game id db ≡ some game
    → game.players ≡ p ∷ q ∷ []
    → settle db ((or_throw r >>= finalize_terminal game (locked_clock game.game now)) db)
      ≡ concluded game p q now r db
finalized id db game p q now (ok outcome) h e =
    ground (arith, finalize_terminal_lem id db game p q (locked_clock game.game now) outcome h e)
finalized id db game p q now (err _) h e = refl

-- A no-show.
pub adjudicate_no_show_lem :
    (id : Uuid) (db : Database) (game : PersistedGame) (p q : PlayerRow) (now : ℤ)
    → load_game id db ≡ some game
    → game.players ≡ p ∷ q ∷ []
    → game.game.status ≡ waiting_for_players
    → adjudicate_no_show now id db ≡ (
        let joined = joined_colors game.players in
        if not_due now game.game.join_deadline_at
        then (ok none, db)
        else concluded game p q now (no_show_outcome (has w joined) (has b joined)) db)
unfolding adjudicate_no_show no_show_in_transaction derive_terminal_outcome eq_status
adjudicate_no_show_lem id db game p q now h e waiting =
    let joined = joined_colors game.players in
    ground (
      arith,
      lock_game_clock_lem id db game now h,
      locked_fields game.game now,
      derive_no_show_lem joined,
      finalized id db game p q now (no_show_outcome (has w joined) (has b joined)) h e,
    )

-- An abandonment.
pub adjudicate_abandonment_lem :
    (id : Uuid) (db : Database) (game : PersistedGame) (p q : PlayerRow) (now : ℤ)
    (absent_ids : List Uuid)
    → load_game id db ≡ some game
    → game.players ≡ p ∷ q ∷ []
    → game.game.status ≡ reconnecting
    → let absent = absent_players absent_ids game.players in
      let colors = map (λ x. x.color) absent in
      adjudicate_abandonment now id absent_ids db ≡ (
        if without_grace absent || not (grace_due now absent)
        then (ok none, db)
        else concluded game p q now (absence_outcome (has w colors) (has b colors)) db)
unfolding adjudicate_abandonment abandonment_in_transaction derive_terminal_outcome eq_status
adjudicate_abandonment_lem id db game p q now absent_ids h e waiting =
    let absent = absent_players absent_ids game.players in
    let colors = map (λ x. x.color) absent in
    ground (
      arith,
      lock_game_clock_lem id db game now h,
      locked_fields game.game now,
      derive_abandonment_lem colors,
      finalized id db game p q now (absence_outcome (has w colors) (has b colors)) h e,
    )

-- A reset hands the game to the opponent.
abbrev pub abandonment_outcome : PlayerColor → TerminalOutcome
abandonment_outcome b = record {
  result = white_win;
  status = OutcomeStatus.abandoned;
  termination = abandonment;
  winner = some w;
}
abandonment_outcome w = record {
  result = black_win;
  status = OutcomeStatus.abandoned;
  termination = abandonment;
  winner = some b;
}

abandonment_outcome_lem :
    (c : PlayerColor) → derive_terminal_outcome (absence (c ∷ [])) ≡ ok (abandonment_outcome c)
unfolding derive_terminal_outcome
abandonment_outcome_lem b = derive_abandonment_lem (b ∷ [])
abandonment_outcome_lem w = derive_abandonment_lem (w ∷ [])

-- Within the limits of the database, the reset of a guest who plays in a two-player game ends
-- it as abandoned, in favour of the opponent, exactly if the game is waiting, ready, in
-- progress or reconnecting; otherwise nothing happens.
pub terminate_for_reset_lem :
    (guest id : Uuid) (db : Database) (game : PersistedGame) (p q player : PlayerRow) (now : ℤ)
    → find_assignment guest db ≡ some (record { guest_session_id = guest; game_id = id })
    → load_game id db ≡ some game
    → game.players ≡ p ∷ q ∷ []
    → player_for game guest ≡ some player
    → is_timely game.game now ≡ true
    → let open_end : Bool = elim game.game.status [
      | waiting_for_players ↦ true
      | ready ↦ true
      | in_progress ↦ true
      | reconnecting ↦ true
      | _ ↦ false
    ] in
      terminate_for_reset now guest db ≡ (
        if open_end
        then ends_with game p q now (abandonment_outcome player.color) db
        else (ok none, db))
unfolding terminate_for_reset reset_in_transaction eq_status
terminate_for_reset_lem guest id db game p q player now a h e m timely = ground (
  arith,
  lock_game_clock_lem id db game now h,
  locked_fields game.game now,
  abandonment_outcome_lem player.color,
  finalize_terminal_lem id db game p q (locked_clock game.game now)
      (abandonment_outcome player.color) h e,
)
