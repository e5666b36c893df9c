-- ===== src/Store/Codec.antt =====
-- The text columns `result` and `termination`: `persistedResult` and `persistedTermination` of the
-- three repositories in src/modules/game/infrastructure, and the way back in
-- prisma-game.repository.ts.
use Prim.Native.String.{String}
use text.Mathlib.Text.{◌==◌ as str_eq}
use clu_chess.Base.{◌≡◌, refl, Option, none, some, if◌then◌else◌}
use clu_chess.Game.{
  GameResult, black_win, draw, void, white_win, checkmate, fifty_move, insufficient_material,
  stalemate, threefold_repetition, GameTermination, abandonment, double_abandon, no_show,
  resignation, timeout, board,
}

unfoldable pub persisted_result : GameResult → String
persisted_result white_win = "1-0"
persisted_result black_win = "0-1"
persisted_result draw = "1/2-1/2"
persisted_result void = "*"

unfoldable pub persisted_termination : GameTermination → String
persisted_termination abandonment = "ABANDONMENT"
persisted_termination (board checkmate) = "CHECKMATE"
persisted_termination double_abandon = "SYSTEM"
persisted_termination (board fifty_move) = "FIFTY_MOVE_RULE"
persisted_termination (board insufficient_material) = "INSUFFICIENT_MATERIAL"
persisted_termination no_show = "JOIN_TIMEOUT"
persisted_termination resignation = "RESIGNATION"
persisted_termination (board stalemate) = "STALEMATE"
persisted_termination (board threefold_repetition) = "THREEFOLD_REPETITION"
persisted_termination timeout = "TIMEOUT"

result_of_text : String → Option GameResult
result_of_text s =
    if str_eq s "*"
    then some void
    else if str_eq s "0-1"
    then some black_win
    else if str_eq s "1-0"
    then some white_win
    else if str_eq s "1/2-1/2"
    then some draw
    else none

termination_of_text : String → Option GameTermination
termination_of_text s =
    if str_eq s "ABANDONMENT"
    then some abandonment
    else if str_eq s "CHECKMATE"
    then some (board checkmate)
    else if str_eq s "FIFTY_MOVE_RULE"
    then some (board fifty_move)
    else if str_eq s "INSUFFICIENT_MATERIAL"
    then some (board insufficient_material)
    else if str_eq s "JOIN_TIMEOUT"
    then some no_show
    else if str_eq s "RESIGNATION"
    then some resignation
    else if str_eq s "STALEMATE"
    then some (board stalemate)
    else if str_eq s "SYSTEM"
    then some double_abandon
    else if str_eq s "THREEFOLD_REPETITION"
    then some (board threefold_repetition)
    else if str_eq s "TIMEOUT"
    then some timeout
    else none

pub domain_result : Option String → Option GameResult
unfolding result_of_text
domain_result none = none
domain_result (some s) = result_of_text s

pub domain_termination : Option String → Option GameTermination
unfolding termination_of_text
domain_termination none = none
domain_termination (some s) = termination_of_text s

-- Every result and every termination that is written to the database is read back as itself.
pub domain-persisted :
    (r : GameResult) (t : GameTermination)
    → (domain_result (some (persisted_result r)) ≡ some r)
      × (domain_termination (some (persisted_termination t)) ≡ some t)
unfolding domain_result domain_termination persisted_result persisted_termination
domain-persisted r t = (result_back r, termination_back t)
  where
    result_back : (r : GameResult) → domain_result (some (persisted_result r)) ≡ some r
    result_back white_win = refl
    result_back black_win = refl
    result_back draw = refl
    result_back void = refl

    termination_back :
        (t : GameTermination) → domain_termination (some (persisted_termination t)) ≡ some t
    termination_back abandonment = refl
    termination_back (board checkmate) = refl
    termination_back double_abandon = refl
    termination_back (board fifty_move) = refl
    termination_back (board insufficient_material) = refl
    termination_back no_show = refl
    termination_back resignation = refl
    termination_back (board stalemate) = refl
    termination_back (board threefold_repetition) = refl
    termination_back timeout = refl
