-- ===== src/Game/StateMachine/Runs.antt =====
-- Histories of a game through `transitionGame`.
use clu_chess.Base.{
  refl, ◌≡◌, ◌≤◌, ℕ, Bool, true, false, none, some, Option, ok, arith, any, ◌∙◌, sym,
}
use clu_chess.Base.Number.{
  int_laws, pos, ◌+ℤ◌, ◌≤ℤ◌, +ℤ_parts, max_safe_integer, is_safe_integer, ltb_ℤ,
}
use clu_chess.Game.{
  GameStatus, created, waiting_for_players, ready, in_progress, reconnecting, completed, abandoned,
  expired, eq_status,
}
use clu_chess.Game.StateMachine.{
  GameTransitionInput, GameTransitionResult, transition_game, transition_rule, validate_outcome,
  GameTransition,
}
use clu_chess.Game.Terminal.{TerminalOutcome, OutcomeStatus}

abbrev pub is_terminal : GameStatus → Bool
is_terminal completed = true
is_terminal abandoned = true
is_terminal expired = true
is_terminal _ = false

-- How far a game has come; a reconnection is no step back.
abbrev pub rank : GameStatus → ℕ
rank created = 0
rank waiting_for_players = 1
rank ready = 2
rank in_progress = 3
rank reconnecting = 3
rank _ = 4

abbrev is_decided : Option TerminalOutcome → Bool
is_decided none = false
is_decided (some _) = true

-- What every accepted transition does.
pub record Advances (i : GameTransitionInput) (r : GameTransitionResult) : Type 0 where
  pub from : r.previous_status ≡ i.status
  pub live : is_terminal i.status ≡ false
  pub target : r.status ≡ (transition_rule i.transition).to
  pub ranked : rank i.status ≤ rank r.status
  pub version : r.version ≡ i.version +ℤ pos (transition_rule i.transition).version_delta
  pub later : i.version ≤ℤ r.version
  pub range : (pos 0 ≤ℤ r.version) × (r.version ≤ℤ pos max_safe_integer)
  pub outcome : r.outcome ≡ i.outcome
  pub ended : is_terminal r.status ≡ is_decided r.outcome

abbrev is_some {ℓ} : {A : Type ℓ} → Option A → Bool
is_some none = false
is_some (some _) = true

-- The table: no rule leaves a terminal status or goes back, and the rules that want an outcome are
-- those that end the game.
rule_sound :
    (t : GameTransition) (s : GameStatus)
    → any (eq_status s) (transition_rule t).from ≡ true
    → (is_terminal s ≡ false)
      × (rank s ≤ rank (transition_rule t).to)
      × (is_terminal (transition_rule t).to ≡ is_some (transition_rule t).outcome_status)
unfolding transition_rule eq_status
rule_sound t s h = ground arith

validate_sound :
    (o : Option TerminalOutcome) (expected : Option OutcomeStatus) (t : GameTransition)
    → validate_outcome o expected t ≡ ok tt
    → is_decided o ≡ is_some expected
unfolding validate_outcome
validate_sound o expected t h = ground arith

-- The tests that an accepted transition has passed.
accepted_tests :
    (i : GameTransitionInput) {r : GameTransitionResult}
    → transition_game i ≡ ok r
    → let rule = transition_rule i.transition in
      let version = i.version +ℤ pos rule.version_delta in
      (is_safe_integer i.version ≡ true)
      × (ltb_ℤ i.version (pos 0) ≡ false)
      × (any (eq_status i.status) rule.from ≡ true)
      × (validate_outcome i.outcome rule.outcome_status i.transition ≡ ok tt)
      × (is_safe_integer version ≡ true)
      × (r ≡ record {
        outcome = i.outcome;
        previous_status = i.status;
        previous_version = i.version;
        status = rule.to;
        version = version;
      })
unfolding transition_game
accepted_tests i h = ground arith

-- An accepted transition starts from a status that is not terminal, leads to the status of its
-- rule, never to an earlier stage, adds the rule's delta to the version, stays in the range of
-- safe integers, keeps the outcome it was given, and has an outcome exactly if the new status
-- is terminal.
pub transition_game-Advances :
    (i : GameTransitionInput) {r : GameTransitionResult} → transition_game i ≡ ok r → Advances i r
transition_game-Advances i h =
    let (safe, nonneg, allowed, valid, safe', result) = accepted_tests i h in
    let (live, ranked, ended) = rule_sound i.transition i.status allowed in
    let wanted =
      validate_sound i.outcome (transition_rule i.transition).outcome_status i.transition valid in
    rw result (record {
      from = refl;
      live = live;
      target = refl;
      ranked = ranked;
      version = refl;
      later = grind int_laws;
      range = ground (arith, +ℤ_parts i.version (pos (transition_rule i.transition).version_delta));
      outcome = refl;
      ended = ended ∙ sym wanted;
    })
