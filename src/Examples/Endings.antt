-- ===== src/Examples/Endings.antt =====
-- How the game ends or goes on without a move.
use clu_chess.Base.{ℕ, ◌≡◌, refl, true, false, none, some, [], ◌∷◌, ok, arith, if◌then◌else◌}
use clu_chess.Base.Number.{◌-ℤ◌, pos, ◌+ℤ◌, ltb_ℤ}
use clu_chess.Game.{reconnecting, in_progress, w, b}
use clu_chess.Game.Terminal.Presence.{absence_outcome, no_show_outcome}
use clu_chess.Store.Loading.{
  PersistedGame, load_game, players_of, player_for, find_command, find_assignment, lock_game_clock,
}
use clu_chess.Store.LockedClock.{locked_clock, is_live}
use clu_chess.Store.Rows.{GameRow, Database}
use clu_chess.Store.Soundness.{IsSound, IsConsistent}
use clu_chess.Store.Tables.{update_game, find_game}
use clu_chess.Store.Tx.{returned}
use clu_chess.Lifecycle.Absences.{mark_disconnected_absence, mark_reconnected_return}
use clu_chess.Lifecycle.Adjudication.{
  adjudicate_timeout_lem, terminate_for_reset_lem, ends_with, concluded, timeout_outcome,
  abandonment_outcome,
}
use clu_chess.Lifecycle.Connection.{mark_disconnected, mark_reconnected}
use clu_chess.Lifecycle.Ending.{
  adjudicate_timeout, adjudicate_no_show, adjudicate_abandonment, terminate_for_reset,
}
use clu_chess.Lifecycle.Finalize.{finalize_terminal}
use clu_chess.Lifecycle.Reconnection.{mark_reconnected-mark_disconnected}
use clu_chess.Lifecycle.Replay.{resign-resign, resign_refused, resign_submission, is_ok}
use clu_chess.Lifecycle.Resign.{ResignGame, resign, resign_in_transaction}
use clu_chess.Lifecycle.Settlement.{is_timely, ended_event, finalize_terminal-IsEnded, IsEnded}
use clu_chess.Lifecycle.Verdicts.{adjudicate_no_show_verdict, adjudicate_abandonment_verdict}
use clu_chess.Examples.{white, black, black_away, row, waiting_row, away_row, game_of, tables}

abbrev playing : Database
playing = tables row (white ∷ black ∷ [])

abbrev waiting : Database
waiting = tables waiting_row (white ∷ record black { joined_at = none; connected_at = none } ∷ [])

abbrev away : Database
away = tables away_row (white ∷ black_away ∷ [])

abbrev game : PersistedGame
game = game_of row (white ∷ black ∷ [])

abbrev waiting_game : PersistedGame
waiting_game =
    game_of waiting_row (white ∷ record black { joined_at = none; connected_at = none } ∷ [])

abbrev away_game : PersistedGame
away_game = game_of away_row (white ∷ black_away ∷ [])

playing_loads : load_game 1 playing ≡ some game
unfolding load_game find_game players_of
playing_loads = refl

waiting_loads : load_game 1 waiting ≡ some waiting_game
unfolding load_game find_game players_of
waiting_loads = refl

away_loads : load_game 1 away ≡ some away_game
unfolding load_game find_game players_of
away_loads = refl

playing_assigned :
    find_assignment 102 playing ≡ some (record { guest_session_id = 102; game_id = 1 })
unfolding find_assignment
playing_assigned = refl

away_assigned : find_assignment 102 away ≡ some (record { guest_session_id = 102; game_id = 1 })
unfolding find_assignment
away_assigned = refl

black_plays : player_for game 102 ≡ some black
unfolding player_for
black_plays = refl

black_gone : player_for away_game 102 ≡ some black_away
unfolding player_for
black_gone = refl

playing_live : is_live row.status ≡ true
unfolding is_live
playing_live = refl

fresh_event : find_command 1 900 playing ≡ none
unfolding find_command
fresh_event = refl

found_row : (id : ℕ) (g : GameRow) → find_game id playing.games ≡ some g → g ≡ row
unfolding find_game
found_row id g h = ground arith

row-IsSound : IsSound row
unfolding is_live
row-IsSound = record {
  result = refl;
  termination = refl;
  ended = refl;
  turn = refl;
  started = λ _. refl;
  white = ground arith;
  black = ground arith;
  increment = ground arith;
}

playing-IsConsistent : IsConsistent playing
playing-IsConsistent = record {
  sound = λ id g h. rw (found_row id g h) row-IsSound;
  released = λ id g h t. cc (found_row id g h);
}

row_timely : is_timely row (pos 4100) ≡ true
unfolding ◌-ℤ◌
row_timely = refl

finalize_terminal-IsEnded_example :
    let locked = locked_clock row (pos 4100) in
    (after : Database) × (finalize_terminal game locked (timeout_outcome w) playing
      ≡ returned
          (some (record {
            duplicate = false;
            ended = ended_event game locked (timeout_outcome w);
            guest_session_ids = (101, 102);
          }))
          after)
    × IsEnded 1 locked (timeout_outcome w) row playing after
unfolding ◌-ℤ◌
finalize_terminal-IsEnded_example =
    finalize_terminal-IsEnded 1 playing game white black (locked_clock row (pos 4100))
      (timeout_outcome w) playing_loads refl (unfold locked_clock in refl)

-- White's time ends at 4000.
adjudicate_timeout_lem_example : adjudicate_timeout (pos 4100) 1 playing ≡ (
    if ltb_ℤ (pos 4100) (pos 1000 +ℤ pos 3000)
    then (ok none, playing)
    else ends_with game white black (pos 4100) (timeout_outcome w) playing)
adjudicate_timeout_lem_example =
    adjudicate_timeout_lem 1 playing game white black (pos 4100) (pos 1000) playing_loads refl
      row-IsSound playing_live refl row_timely

-- Black has not joined by 800.
adjudicate_no_show_verdict_example :
    adjudicate_no_show (pos 900) 1 waiting
    ≡ concluded waiting_game white
        (record black { joined_at = none; connected_at = none })
        (pos 900)
        (no_show_outcome true false)
        waiting
adjudicate_no_show_verdict_example =
    adjudicate_no_show_verdict 1 waiting waiting_game white
      (record black { joined_at = none; connected_at = none }) (pos 900) waiting_loads refl refl
      refl

adjudicate_abandonment_verdict_example :
    adjudicate_abandonment (pos 2000) 1 (102 ∷ []) away
    ≡ concluded away_game white black_away (pos 2000) (absence_outcome false true) away
unfolding ◌-ℤ◌
adjudicate_abandonment_verdict_example =
    adjudicate_abandonment_verdict 1 away away_game white black_away (pos 2000) (102 ∷ [])
      away_loads refl refl refl

terminate_for_reset_lem_example :
    terminate_for_reset (pos 1500) 102 playing
    ≡ ends_with game white black (pos 1500) (abandonment_outcome b) playing
unfolding ◌-ℤ◌
terminate_for_reset_lem_example =
    terminate_for_reset_lem 102 1 playing game white black black (pos 1500) playing_assigned
      playing_loads refl black_plays refl

abbrev surrender : ResignGame
surrender = record { event_id = 900; expected_version = 2; game_id = 1; guest_session_id = 102 }

resign-resign_example :
    let (answer, db') = resign (pos 1500) surrender playing in
    (answer ≡ ok (resign_submission game white black black (pos 1500)))
    × (resign (pos 9000) surrender db' ≡ (
      ok (record (resign_submission game white black black (pos 1500)) { duplicate = true }),
      db',
    ))
resign-resign_example =
    resign-resign playing game white black black (pos 1500) (pos 9000) surrender playing_loads refl
      black_plays fresh_event playing_live refl

-- A stranger resigns.
abbrev intrusion : ResignGame
intrusion = record surrender { guest_session_id = 777 }

intrusion_refused : is_ok (resign (pos 1500) intrusion playing).0 ≡ false
unfolding resign resign_in_transaction lock_game_clock load_game find_game players_of player_for
intrusion_refused = refl

resign_refused_example : (resign (pos 1500) intrusion playing).1 ≡ playing
resign_refused_example = resign_refused playing (pos 1500) intrusion intrusion_refused

mark_disconnected_absence_example : mark_disconnected (pos 1500) 102 (pos 400) playing ≡ (
  ok (
      some (record {
        color = b;
        game_id = 1;
        game_version = 3;
        grace_deadline = pos 1500 +ℤ pos 400;
      })),
  record playing {
    games =
        record row {
          reconnect_deadline_at = some (pos 1500 +ℤ pos 400);
          status = reconnecting;
          version = 3;
        }
        ∷ [];
    players =
        white
        ∷ record black {
          connected_at = none;
          disconnected_at = some (pos 1500);
          reconnect_grace_ends_at = some (pos 1500 +ℤ pos 400);
        }
        ∷ [];
  },
)
unfolding update_game ◌-ℤ◌
mark_disconnected_absence_example =
    mark_disconnected_absence 102 1 playing game black (pos 1500) (pos 400) playing_assigned
      playing_loads black_plays playing_live refl refl refl

mark_reconnected_return_example : mark_reconnected (pos 1700) 102 away ≡ (
  ok (some (record { color = b; game_id = 1; game_version = 4 })),
  record away {
    games =
        record away_row { reconnect_deadline_at = none; status = in_progress; version = 4 } ∷ [];
    players =
        white
        ∷ record black_away {
          connected_at = some (pos 1700);
          disconnected_at = none;
          reconnect_grace_ends_at = none;
        }
        ∷ [];
  },
)
unfolding update_game ◌-ℤ◌
mark_reconnected_return_example =
    mark_reconnected_return 102 1 away away_game black_away (pos 1700) (pos 1500) away_assigned
      away_loads black_gone refl refl refl

mark_reconnected-mark_disconnected_example :
    let db' = (mark_disconnected (pos 1500) 102 (pos 400) playing).1 in
    let (answer, db'') = mark_reconnected (pos 1700) 102 db' in
    (answer ≡ ok (some (record { color = b; game_id = 1; game_version = 4 })))
    × (find_game 1 db''.games ≡ some (record row { reconnect_deadline_at = none; version = 4 }))
mark_reconnected-mark_disconnected_example =
    mark_reconnected-mark_disconnected 102 1 playing game black (pos 1500) (pos 1700) (pos 400)
      playing_assigned playing_loads black_plays refl refl refl
