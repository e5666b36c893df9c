-- ===== src/Lifecycle/Ending.antt =====
-- The operations of prisma-game-lifecycle.repository.ts that end a game without its players'
-- command: reset, flag fall, no-show and abandonment, and the deadlines that they wait for.
use clu_chess.Base.{
  ◌==◌, Bool, true, false, not, ◌||◌, Option, none, some, List, [], ◌∷◌, ◌++◌, map, any, Result,
  if◌then◌else◌,
}
use clu_chess.Base.Number.{ℤ, pos, ◌+ℤ◌, ltb_ℤ}
use clu_chess.Game.{
  GameStatus, waiting_for_players, ready, in_progress, reconnecting, PlayerColor, w, eq_color,
  eq_status,
}
use clu_chess.Game.Terminal.{timed_out, absence, joined_only, derive_terminal_outcome}
use clu_chess.Store.Loading.{PersistedGame, load_game, lock_game_clock, find_assignment, player_for}
use clu_chess.Store.LockedClock.{LockedGameClock, is_live}
use clu_chess.Store.Rows.{Uuid, GameRow, PlayerRow, TerminalSubmission, Database}
use clu_chess.Store.Tables.{filter}
use clu_chess.Store.Tx.{
  Body, DatabaseErrorKind, ◌>>=◌, ◌>>◌, return_if, or_return, or_throw, gets, run_transaction,
}
use clu_chess.Lifecycle.Finalize.{finalize_terminal}

abbrev pub Ends : Type 0
Ends = Body (Option TerminalSubmission) (Option TerminalSubmission)

-- The statuses from which a reset ends the game.
abbrev pub resettable : GameStatus → Bool
resettable s = any (eq_status s) (in_progress ∷ ready ∷ reconnecting ∷ waiting_for_players ∷ [])

unfoldable pub reset_in_transaction : ℤ → Uuid → Ends
reset_in_transaction now guest = do
  found ← gets (find_assignment guest)
  assignment ← or_return found none
  row ← gets (lock_game_clock now assignment.game_id)
  locked ← or_return row none
  loaded ← gets (load_game assignment.game_id)
  game ← or_return loaded none
  return_if (not (resettable game.game.status)) none
  player ← or_return (player_for game guest) none
  outcome ← or_throw (derive_terminal_outcome (absence (player.color ∷ [])))
  finalize_terminal game locked outcome

unfoldable pub terminate_for_reset :
    ℤ → Uuid → Database → Result DatabaseErrorKind (Option TerminalSubmission) × Database
terminate_for_reset now guest = run_transaction (reset_in_transaction now guest)

-- The time that the locked row leaves to the player to move.
unfoldable pub locked_remaining : LockedGameClock → ℤ
unfolding eq_color
locked_remaining locked =
    if eq_color locked.turn_color w then locked.white_clock_ms else locked.black_clock_ms

unfoldable pub timeout_in_transaction : ℤ → Uuid → Ends
timeout_in_transaction now game_id = do
  row ← gets (lock_game_clock now game_id)
  locked ← or_return row none
  return_if (not (is_live locked.status)) none
  return_if (ltb_ℤ (pos 0) (locked_remaining locked)) none
  loaded ← gets (load_game game_id)
  game ← or_return loaded none
  outcome ← or_throw (derive_terminal_outcome (timed_out locked.turn_color))
  finalize_terminal game locked outcome

unfoldable pub adjudicate_timeout :
    ℤ → Uuid → Database → Result DatabaseErrorKind (Option TerminalSubmission) × Database
adjudicate_timeout now game_id = run_transaction (timeout_in_transaction now game_id)

-- `null` or later than the observation.
abbrev pub not_due : ℤ → Option ℤ → Bool
not_due now none = true
not_due now (some deadline) = ltb_ℤ now deadline

abbrev pub is_set : Option ℤ → Bool
is_set none = false
is_set (some _) = true

abbrev pub joined_colors : List PlayerRow → List PlayerColor
joined_colors ps = map (λ p. p.color) (filter (λ p. is_set p.joined_at) ps)

unfoldable pub no_show_in_transaction : ℤ → Uuid → Ends
no_show_in_transaction now game_id = do
  row ← gets (lock_game_clock now game_id)
  locked ← or_return row none
  return_if (not (eq_status locked.status waiting_for_players)) none
  loaded ← gets (load_game game_id)
  game ← or_return loaded none
  return_if (not_due locked.observed_at game.game.join_deadline_at) none
  outcome ← or_throw (derive_terminal_outcome (joined_only (joined_colors game.players)))
  finalize_terminal game locked outcome

unfoldable pub adjudicate_no_show :
    ℤ → Uuid → Database → Result DatabaseErrorKind (Option TerminalSubmission) × Database
adjudicate_no_show now game_id = run_transaction (no_show_in_transaction now game_id)

-- `array.includes` on identifiers.
abbrev pub includes : List Uuid → Uuid → Bool
includes ids id = any (λ x. x == id) ids

abbrev pub absent_players : List Uuid → List PlayerRow → List PlayerRow
absent_players absent ps = filter (λ p. includes absent p.guest_session_id) ps

abbrev pub is_empty {ℓ} : {A : Type ℓ} → List A → Bool
is_empty [] = true
is_empty (x ∷ xs) = false

-- One of the absent players has no grace running.
abbrev pub without_grace : List PlayerRow → Bool
without_grace ps =
    any (λ p. not (is_set p.disconnected_at) || not (is_set p.reconnect_grace_ends_at)) ps

abbrev pub grace_due : ℤ → List PlayerRow → Bool
grace_due now ps = any (λ p. not (not_due now p.reconnect_grace_ends_at)) ps

unfoldable pub abandonment_in_transaction : ℤ → Uuid → List Uuid → Ends
abandonment_in_transaction now game_id absent_ids = do
  row ← gets (lock_game_clock now game_id)
  locked ← or_return row none
  return_if (not (eq_status locked.status reconnecting)) none
  loaded ← gets (load_game game_id)
  game ← or_return loaded none
  let absent = absent_players absent_ids game.players
  return_if (is_empty absent || without_grace absent || not (grace_due locked.observed_at absent))
      none
  outcome ← or_throw (derive_terminal_outcome (absence (map (λ p. p.color) absent)))
  finalize_terminal game locked outcome

unfoldable pub adjudicate_abandonment :
    ℤ
    → Uuid
    → List Uuid
    → Database
    → Result DatabaseErrorKind (Option TerminalSubmission) × Database
adjudicate_abandonment now game_id absent_ids =
    run_transaction (abandonment_in_transaction now game_id absent_ids)

-- The earliest of some times, as `earliest` folds it.
unfoldable pub earliest_from : Option ℤ → List ℤ → Option ℤ
earliest_from acc [] = acc
earliest_from acc (t ∷ ts) =
    earliest_from (elim acc [ none ↦ some t | some e ↦ if ltb_ℤ t e then some t else some e ]) ts

unfoldable pub earliest : List ℤ → Option ℤ
unfolding earliest_from
earliest ts = earliest_from none ts

-- `filter((deadline): deadline is Date => deadline !== null)` after the `map`.
abbrev pub set_times : List (Option ℤ) → List ℤ
set_times [] = []
set_times (none ∷ ts) = set_times ts
set_times (some t ∷ ts) = t ∷ set_times ts

unfoldable pub stored_remaining : GameRow → ℤ
unfolding eq_color
stored_remaining g = if eq_color g.turn_color w then g.white_clock_ms else g.black_clock_ms

-- The candidates of `findDeadline`.
abbrev pub join_candidates : GameRow → List ℤ
join_candidates g =
    if eq_status g.status waiting_for_players then set_times (g.join_deadline_at ∷ []) else []

abbrev pub turn_candidates : GameRow → List ℤ
turn_candidates g = elim g.turn_started_at [
  | none ↦ []
  | some t ↦ if is_live g.status then (t +ℤ stored_remaining g) ∷ [] else []
]

abbrev pub grace_candidates : PersistedGame → List ℤ
grace_candidates game =
    if eq_status game.game.status reconnecting
    then set_times (map (λ p. p.reconnect_grace_ends_at) game.players)
    else []

unfoldable pub find_deadline : Uuid → Database → Option ℤ
unfolding earliest
find_deadline game_id db = elim (load_game game_id db) [
  | none ↦ none
  | some game ↦
      earliest (join_candidates game.game ++ turn_candidates game.game ++ grace_candidates game)
]
