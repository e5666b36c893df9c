-- ===== src/Lifecycle/Verdicts.antt =====
-- When a no-show and an abandonment end a game, player by player
-- (`adjudicateNoShow` and `adjudicateAbandonment` of prisma-game-lifecycle.repository.ts).
use clu_chess.Base.{
  ◌==◌, ◌≡◌, refl, Bool, true, false, not, ◌&&◌, ◌||◌, Option, none, some, List, [], ◌∷◌, any, map,
  ok, arith, if◌then◌else◌,
}
use clu_chess.Base.Number.{ℤ, leb_ℤ}
use clu_chess.Game.{waiting_for_players, reconnecting, PlayerColor, w, b, eq_color}
use clu_chess.Game.Terminal.Presence.{has, absence_outcome, no_show_outcome}
use clu_chess.Store.Loading.{PersistedGame, load_game}
use clu_chess.Store.Rows.{Uuid, PlayerRow, Database}
use clu_chess.Store.Tables.{filter}
use clu_chess.Lifecycle.Adjudication.{concluded, adjudicate_no_show_lem, adjudicate_abandonment_lem}
use clu_chess.Lifecycle.Ending.{
  is_set, includes, adjudicate_no_show, adjudicate_abandonment, absent_players, without_grace,
  grace_due, joined_colors, not_due,
}
use clu_chess.Lifecycle.Settlement.{is_timely}

-- A time that is set and not later than the moment.
abbrev pub has_come : ℤ → Option ℤ → Bool
has_come now none = false
has_come now (some t) = leb_ℤ t now

abbrev pub is_white : PlayerColor → Bool
is_white w = true
is_white b = false

abbrev pub is_there : Option ℤ → Bool
is_there none = false
is_there (some _) = true

-- What holds of a player of one color.
abbrev pub of_color : Bool → Bool → PlayerColor → PlayerColor → Bool → Bool
of_color p_holds q_holds p q white =
    let same : PlayerColor → Bool = λ c. if white then is_white c else not (is_white c) in
    (p_holds && same p) || (q_holds && same q)

-- A player that is named, has left and has a grace.
abbrev pub is_named : List Uuid → PlayerRow → Bool
is_named ids p = any (λ id. id == p.guest_session_id) ids

abbrev pub is_graced : PlayerRow → Bool
is_graced p = is_there p.disconnected_at && is_there p.reconnect_grace_ends_at

-- Each named player has a grace, and one of theirs is over.
abbrev pub is_forfeit : ℤ → List Uuid → PlayerRow → PlayerRow → Bool
is_forfeit now ids p q =
    (not (is_named ids p) || is_graced p)
    && (not (is_named ids q) || is_graced q)
    && ((is_named ids p && has_come now p.reconnect_grace_ends_at)
        || (is_named ids q && has_come now q.reconnect_grace_ends_at))

pub due-has_come : (now : ℤ) (t : Option ℤ) → not (not_due now t) ≡ has_come now t
due-has_come now none = refl
due-has_come now (some t) = ground arith

set-there : (t : Option ℤ) → is_set t ≡ is_there t
set-there none = refl
set-there (some t) = refl

abbrev color_of : Bool → PlayerColor
color_of white = if white then w else b

-- The colors of those of two players that pass a test.
filtered_colors :
    (test : PlayerRow → Bool) (p q : PlayerRow) (white : Bool)
    → has (color_of white) (map (λ x. x.color) (filter test (p ∷ q ∷ [])))
      ≡ of_color (test p) (test q) p.color q.color white
unfolding eq_color
filtered_colors test p q white = go (test p) (test q) p.color q.color white refl refl refl refl
  where
    go :
        (tp tq : Bool) (cp cq : PlayerColor) (white : Bool)
        → test p ≡ tp
        → test q ≡ tq
        → p.color ≡ cp
        → q.color ≡ cq
        → has (color_of white) (map (λ x. x.color) (filter test (p ∷ q ∷ [])))
          ≡ of_color tp tq cp cq white
    go tp tq cp cq true e f g h = ground (arith, e, f, g, h)
    go tp tq cp cq false e f g h = ground (arith, e, f, g, h)

no_show_colors :
    (p q : PlayerRow) (white : Bool)
    → has (color_of white) (joined_colors (p ∷ q ∷ []))
      ≡ of_color (is_there p.joined_at) (is_there q.joined_at) p.color q.color white
no_show_colors p q white =
    rw⁻¹ (set-there p.joined_at, set-there q.joined_at)
      (filtered_colors (λ x. is_set x.joined_at) p q white)

abandoned_colors :
    (ids : List Uuid) (p q : PlayerRow) (white : Bool)
    → has (color_of white) (map (λ x. x.color) (absent_players ids (p ∷ q ∷ [])))
      ≡ of_color (is_named ids p) (is_named ids q) p.color q.color white
abandoned_colors ids p q white = filtered_colors (λ x. includes ids x.guest_session_id) p q white

forfeit_lem :
    (now : ℤ) (ids : List Uuid) (p q : PlayerRow)
    → let absent = absent_players ids (p ∷ q ∷ []) in
      (without_grace absent || not (grace_due now absent)) ≡ not (is_forfeit now ids p q)
forfeit_lem now ids p q =
    ground (
      arith,
      due-has_come now p.reconnect_grace_ends_at,
      due-has_come now q.reconnect_grace_ends_at,
    )

-- A two-player game that waits for its players, within the limits of the database, is concluded
-- exactly if it has a join deadline that is not later than the moment: whoever has joined alone
-- wins, nobody makes it void, and two players that have both joined are an error that changes
-- nothing.
pub adjudicate_no_show_verdict :
    (id : Uuid) (db : Database) (game : PersistedGame) (p q : PlayerRow) (now : ℤ)
    → load_game id db ≡ some game
    → game.players ≡ p ∷ q ∷ []
    → game.game.status ≡ waiting_for_players
    → is_timely game.game now ≡ true
    → let joined = of_color (is_there p.joined_at) (is_there q.joined_at) p.color q.color in
      adjudicate_no_show now id db ≡ (
        if has_come now game.game.join_deadline_at
        then concluded game p q now (no_show_outcome (joined true) (joined false)) db
        else (ok none, db))
adjudicate_no_show_verdict id db game p q now h e waiting timely = ground (
  arith,
  adjudicate_no_show_lem id db game p q now h e waiting,
  e,
  due-has_come now game.game.join_deadline_at,
  no_show_colors p q true,
  no_show_colors p q false,
)

-- In a two-player game that is RECONNECTING, within the limits of the database, the players
-- named lose, exactly if each of them has left and has a grace, and the grace of one of them is
-- over; both of them make the result void. Otherwise nothing happens.
pub adjudicate_abandonment_verdict :
    (id : Uuid) (db : Database) (game : PersistedGame) (p q : PlayerRow) (now : ℤ) (ids : List Uuid)
    → load_game id db ≡ some game
    → game.players ≡ p ∷ q ∷ []
    → game.game.status ≡ reconnecting
    → is_timely game.game now ≡ true
    → let named = of_color (is_named ids p) (is_named ids q) p.color q.color in
      adjudicate_abandonment now id ids db ≡ (
        if is_forfeit now ids p q
        then concluded game p q now (absence_outcome (named true) (named false)) db
        else (ok none, db))
adjudicate_abandonment_verdict id db game p q now ids h e away timely = ground (
  arith,
  adjudicate_abandonment_lem id db game p q now ids h e away,
  e,
  forfeit_lem now ids p q,
  abandoned_colors ids p q true,
  abandoned_colors ids p q false,
)
