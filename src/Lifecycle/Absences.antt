-- ===== src/Lifecycle/Absences.antt =====
-- The rows that a loss of connection and a return leave (`markDisconnected` and `markReconnected` of
-- prisma-game-lifecycle.repository.ts).
use clu_chess.Base.{
  ◌+◌, ◌==◌, ◌≡◌, refl, ap, true, false, Option, none, some, List, [], ◌∷◌, ok, arith,
  if◌then◌else◌,
}
use clu_chess.Base.Number.{ℤ, pos, ◌+ℤ◌, ltb_ℤ, leb_ℤ}
use clu_chess.Game.{reconnecting, in_progress}
use clu_chess.Store.Loading.{PersistedGame, load_game, find_assignment, player_for}
use clu_chess.Store.LockedClock.{is_live}
use clu_chess.Store.Rows.{Uuid, GameRow, PlayerRow, Database}
use clu_chess.Store.Tables.{update_where, update_game}
use clu_chess.Lifecycle.Connection.{
  mark_disconnected, mark_reconnected, other_deadlines, restored_row, update_player,
}
use clu_chess.Lifecycle.Ending.{earliest, earliest_from}
use clu_chess.Lifecycle.Reconnection.{mark_disconnected_lem, mark_reconnected_lem, changed_tables}
use clu_chess.Lifecycle.Settlement.{is_timely}

-- The ends of the graces of the players with other ids.
abbrev pub graces_of_others : Uuid → List PlayerRow → List ℤ
graces_of_others id [] = []
graces_of_others id (p ∷ ps) =
    let rest = graces_of_others id ps in
    if p.id == id then rest else elim p.reconnect_grace_ends_at [ none ↦ rest | some t ↦ t ∷ rest ]

other_deadlines-graces_of_others :
    (player : PlayerRow) (ps : List PlayerRow)
    → other_deadlines player ps ≡ graces_of_others player.id ps
other_deadlines-graces_of_others player [] = refl
other_deadlines-graces_of_others player (p ∷ ps) =
    ground (arith, other_deadlines-graces_of_others player ps)

-- The least of a time and some others.
abbrev pub least : ℤ → List ℤ → ℤ
least t [] = t
least t (u ∷ us) = let rest = least u us in if leb_ℤ t rest then t else rest

least-min : (t u : ℤ) (us : List ℤ) → least t (u ∷ us) ≡ least (if ltb_ℤ u t then u else t) us
least-min t u [] = ground arith
least-min t u (x ∷ us) = ground (arith, least-min t x us, least-min u x us)

earliest_from-least : (t : ℤ) (us : List ℤ) → earliest_from (some t) us ≡ some (least t us)
unfolding earliest_from
earliest_from-least t [] = refl
earliest_from-least t (u ∷ us) =
    ground (arith, least-min t u us, earliest_from-least t us, earliest_from-least u us)

earliest-least : (t : ℤ) (us : List ℤ) → earliest (t ∷ us) ≡ some (least t us)
unfolding earliest earliest_from
earliest-least t us = earliest_from-least t us

-- The least of some times, where there are any.
abbrev pub least_of : List ℤ → Option ℤ
least_of [] = none
least_of (t ∷ ts) = some (least t ts)

-- A game with these deadlines left.
abbrev pub returned_row : List ℤ → GameRow → GameRow
returned_row remaining g = record g {
  reconnect_deadline_at = least_of remaining;
  status = elim remaining [ [] ↦ in_progress | _ ∷ _ ↦ reconnecting ];
  version = g.version + 1;
}

restored_row-returned_row : (ts : List ℤ) → restored_row ts ≡ returned_row ts
restored_row-returned_row [] = refl
restored_row-returned_row (t ∷ ts) =
    ap
      (λ d.
        λ g. record g { reconnect_deadline_at = d; status = reconnecting; version = g.version + 1 })
      (earliest-least t ts)

-- The first disconnection of a player of a live game, within the limits of the database and
-- with a grace that is not negative, records that the player left at that moment and has a
-- grace until the moment and the grace, makes the game RECONNECTING until the least of that
-- time and the graces of the other players, and increments the version; no other row changes.
pub mark_disconnected_absence :
    (guest id : Uuid) (db : Database) (game : PersistedGame) (player : PlayerRow) (now grace : ℤ)
    → find_assignment guest db ≡ some (record { guest_session_id = guest; game_id = id })
    → load_game id db ≡ some game
    → player_for game guest ≡ some player
    → is_live game.game.status ≡ true
    → player.disconnected_at ≡ none
    → is_timely game.game now ≡ true
    → ltb_ℤ grace (pos 0) ≡ false
    → let deadline = now +ℤ grace in
      mark_disconnected now guest grace db ≡ (
        ok (
            some (record {
              color = player.color;
              game_id = game.game.id;
              game_version = game.game.version + 1;
              grace_deadline = deadline;
            })),
        record db {
          games =
              (update_game game.game.id game.game.version
                (λ g. record g {
                  reconnect_deadline_at =
                      some (least deadline (graces_of_others player.id game.players));
                  status = reconnecting;
                  version = g.version + 1;
                })
                db.games).1;
          players =
              update_where
                (λ p. p.id == player.id)
                (λ p. record p {
                  connected_at = none;
                  disconnected_at = some now;
                  reconnect_grace_ends_at = some deadline;
                })
                db.players;
        },
      )
unfolding changed_tables update_player
mark_disconnected_absence guest id db game player now grace a h m live connected timely positive =
    rw⁻¹ (other_deadlines-graces_of_others player game.players) (
      rw⁻¹ (earliest-least (now +ℤ grace) (other_deadlines player game.players))
        (mark_disconnected_lem guest id db game player now grace a h m live connected))

-- The reconnection of a player who is away from a RECONNECTING game, within the limits of the
-- database, records that the player is there from that moment on, without a grace, and
-- increments the version; the game is IN_PROGRESS again, without a deadline, if no other player
-- has a grace, and otherwise stays RECONNECTING until the least of those left; no other row
-- changes.
pub mark_reconnected_return :
    (guest id : Uuid) (db : Database) (game : PersistedGame) (player : PlayerRow) (now t : ℤ)
    → find_assignment guest db ≡ some (record { guest_session_id = guest; game_id = id })
    → load_game id db ≡ some game
    → player_for game guest ≡ some player
    → game.game.status ≡ reconnecting
    → player.disconnected_at ≡ some t
    → is_timely game.game now ≡ true
    → let remaining = graces_of_others player.id game.players in
      mark_reconnected now guest db ≡ (
        ok (
            some (record {
              color = player.color;
              game_id = game.game.id;
              game_version = game.game.version + 1;
            })),
        record db {
          games = (update_game game.game.id game.game.version (returned_row remaining) db.games).1;
          players =
              update_where
                (λ p. p.id == player.id)
                (λ p. record p {
                  connected_at = some now;
                  disconnected_at = none;
                  reconnect_grace_ends_at = none;
                })
                db.players;
        },
      )
unfolding changed_tables update_player
mark_reconnected_return guest id db game player now t a h m status gone timely =
    rw⁻¹ (other_deadlines-graces_of_others player game.players) (
      rw⁻¹ (restored_row-returned_row (other_deadlines player game.players))
        (mark_reconnected_lem guest id db game player now t a h m status gone))
