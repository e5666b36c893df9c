-- ===== src/Game/Terminal/Presence.antt =====
-- Abandonments and no-shows depend only on which colors are listed (terminal-result.ts).
use clu_chess.Base.{
  ◌≡◌, refl, Bool, true, false, none, some, List, [], ◌∷◌, Result, ok, err, any, arith,
  if◌then◌else◌,
}
use clu_chess.Game.{
  PlayerColor, b, w, void, white_win, black_win, abandonment, double_abandon, no_show,
  GameDomainError, invalid_terminal_event, eq_color,
}
use clu_chess.Game.Terminal.{
  OutcomeStatus, TerminalOutcome, unique_from, unique_colors, derive_abandonment, derive_no_show,
}

abbrev pub has : PlayerColor → List PlayerColor → Bool
has c cs = any (eq_color c) cs

unique_from_both :
    (cs : List PlayerColor)
    → (unique_from (b ∷ w ∷ []) cs ≡ b ∷ w ∷ []) × (unique_from (w ∷ b ∷ []) cs ≡ w ∷ b ∷ [])
unfolding unique_from
unique_from_both [] = (refl, refl)
unique_from_both (b ∷ cs) = unique_from_both cs
unique_from_both (w ∷ cs) = unique_from_both cs

unique_from_one :
    (cs : List PlayerColor)
    → (unique_from (b ∷ []) cs ≡ (if has w cs then b ∷ w ∷ [] else b ∷ []))
      × (unique_from (w ∷ []) cs ≡ (if has b cs then w ∷ b ∷ [] else w ∷ []))
unfolding unique_from eq_color
unique_from_one [] = (refl, refl)
unique_from_one (b ∷ cs) = ((unique_from_one cs).0, (unique_from_both cs).1)
unique_from_one (w ∷ cs) = ((unique_from_both cs).0, (unique_from_one cs).1)

-- A specification by presence: who is missing loses, and nobody wins if both are.
abbrev pub absence_outcome : Bool → Bool → Result GameDomainError TerminalOutcome
absence_outcome false false = err invalid_terminal_event
absence_outcome true true = ok (record {
  result = void;
  status = OutcomeStatus.abandoned;
  termination = double_abandon;
  winner = none;
})
absence_outcome true false = ok (record {
  result = black_win;
  status = OutcomeStatus.abandoned;
  termination = abandonment;
  winner = some b;
})
absence_outcome false true = ok (record {
  result = white_win;
  status = OutcomeStatus.abandoned;
  termination = abandonment;
  winner = some w;
})

-- The outcome of an abandonment depends only on whether each color occurs among the absent
-- ones, not on order or repetition: one absent color loses, both make it void, none is an
-- error.
pub derive_abandonment_lem :
    (cs : List PlayerColor) → derive_abandonment cs ≡ absence_outcome (has w cs) (has b cs)
unfolding derive_abandonment unique_colors eq_color
derive_abandonment_lem [] = refl
derive_abandonment_lem (b ∷ cs) = ground (arith, unique_from_one cs)
derive_abandonment_lem (w ∷ cs) = ground (arith, unique_from_one cs)

-- Who joined alone wins, nobody wins if neither did, and both cannot be judged.
abbrev pub no_show_outcome : Bool → Bool → Result GameDomainError TerminalOutcome
no_show_outcome false false =
    ok (record {
      result = void;
      status = OutcomeStatus.expired;
      termination = no_show;
      winner = none;
    })
no_show_outcome true true = err invalid_terminal_event
no_show_outcome true false = ok (record {
  result = white_win;
  status = OutcomeStatus.expired;
  termination = no_show;
  winner = some w;
})
no_show_outcome false true = ok (record {
  result = black_win;
  status = OutcomeStatus.expired;
  termination = no_show;
  winner = some b;
})

-- The outcome of a no-show depends only on whether each color occurs among those that have
-- joined: one wins, none makes it void, both are an error.
pub derive_no_show_lem :
    (cs : List PlayerColor) → derive_no_show cs ≡ no_show_outcome (has w cs) (has b cs)
unfolding derive_no_show unique_colors eq_color
derive_no_show_lem [] = refl
derive_no_show_lem (b ∷ cs) = ground (arith, unique_from_one cs)
derive_no_show_lem (w ∷ cs) = ground (arith, unique_from_one cs)
