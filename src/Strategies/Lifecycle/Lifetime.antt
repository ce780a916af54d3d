-- ===== src/Strategies/Lifecycle/Lifetime.antt =====
-- Whole lifetimes: sequences of requested transitions.
use pmrp.Common.{
  ℕ, suc, ◌+◌, ◌≤◌, ◌≡◌, refl, sym, ap, ◌∙◌, subst, Bool, true, false, List, [], ◌∷◌, arith, any_of,
  if◌then◌else◌,
}
use pmrp.Common.Result.{Result, ok, ◌>>=◌, bind_value}
use pmrp.Strategies.Lifecycle.{
  StrategyState, created, initializing, running, degraded, draining, stopped, failed,
  LifecycleError, same_state, terminal_strategy_states, allowed_transitions,
  validate_strategy_state_transition, transition_strategy_state,
}

-- The transitions that are asked for, one after the other.
abbrev pub run_transitions :
    StrategyState → List StrategyState → Result LifecycleError StrategyState
run_transitions s [] = ok s
run_transitions s (t ∷ ts) = transition_strategy_state s t >>= λ u. run_transitions u ts

-- How many of them go to another state.
abbrev pub changes : StrategyState → List StrategyState → ℕ
changes s [] = 0
changes s (t ∷ ts) = let rest = changes t ts in if same_state s t then rest else suc rest

-- How far a state is along the lifetime.
abbrev pub stage : StrategyState → ℕ
stage created = 0
stage initializing = 1
stage running = 2
stage degraded = 3
stage draining = 4
stage stopped = 5
stage failed = 5

abbrev pub is_terminal : StrategyState → Bool
is_terminal s = any_of (same_state s) terminal_strategy_states

-- An accepted transition stays, or goes on to a later stage.
step_lem :
    (s t u : StrategyState)
    → transition_strategy_state s t ≡ ok u
    → (u ≡ t)
      × (stage s + (if same_state s t then 0 else 1) ≤ stage t)
      × (is_terminal s ≡ true → same_state s t ≡ true)
unfolding transition_strategy_state validate_strategy_state_transition allowed_transitions
step_lem s t u h = (ground arith, ground arith, ground arith)

same_state_lem : (s t : StrategyState) → same_state s t ≡ true → s ≡ t
same_state_lem s t h = ground arith

stage_bound : (s : StrategyState) → stage s ≤ 5
stage_bound s = ground arith

-- If every transition that is asked for is accepted, each that leads to another state leads to a
-- later stage, so that a strategy changes its state five times at most; and from a terminal state
-- it never changes.
pub run_transitions_lem :
    (ts : List StrategyState) (s u : StrategyState)
    → run_transitions s ts ≡ ok u
    → (stage s + changes s ts ≤ stage u)
      × (changes s ts ≤ 5)
      × (is_terminal s ≡ true → (u ≡ s) × (changes s ts ≡ 0))
run_transitions_lem [] s u h = (ground arith, ground arith, λ x. (ground arith, refl))
run_transitions_lem (t ∷ ts) s u h =
    let (v, first, rest) = bind_value (transition_strategy_state s t) _ h in
    let (e, later, stays) = step_lem s t v first in
    let (grown, few, ends) =
      run_transitions_lem ts t u
        (ap (λ (w : StrategyState). run_transitions w ts) (sym e) ∙ rest) in
    let total : stage s + changes s (t ∷ ts) ≤ stage u = ground (arith, later, grown) in
    (
      total,
      ground (arith, total, stage_bound u),
      λ x.
          let same = stays x in
          let here = same_state_lem s t same in
          let (w, n) = ends (subst (λ (z : StrategyState). is_terminal z ≡ true) here x) in
          (w ∙ sym here, rw same n),
    )

-- A strategy that is not in a terminal state may always be stopped, and may always fail.
pub transition_ends :
    (s : StrategyState)
    → is_terminal s ≡ false
    → (transition_strategy_state s stopped ≡ ok stopped)
      × (transition_strategy_state s failed ≡ ok failed)
unfolding transition_strategy_state validate_strategy_state_transition allowed_transitions
transition_ends s h = (ground arith, ground arith)
