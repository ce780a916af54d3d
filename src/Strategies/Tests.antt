-- ===== src/Strategies/Tests.antt =====
-- A strategy's lifetime, a restart policy, and their theorems at them.
use pmrp.Common.{ℕ, ◌+◌, ◌≤◌, ◌≡◌, refl, true, none, some, List, [], ◌∷◌, arith, if◌then◌else◌}
use pmrp.Common.Text.{str}
use pmrp.Common.Result.{ok}
use pmrp.Strategies.Lifecycle.{
  StrategyState, created, initializing, running, degraded, draining, stopped, failed,
  transition_strategy_state, validate_strategy_state_transition, allowed_transitions,
}
use pmrp.Strategies.Lifecycle.Lifetime.{
  run_transitions, changes, stage, is_terminal, run_transitions_lem, transition_ends,
}
use pmrp.Strategies.Restart.{
  FailureKind, event_processing, shutdown, RestartFailure, RestartDecision, BoundedPolicy, decide,
}
use pmrp.Strategies.Restart.Bounded.{
  may_restart, decide_lem, failure_of, granted_restarts, granted_restarts_bound,
}

abbrev requests : List StrategyState
requests = initializing ∷ running ∷ running ∷ degraded ∷ draining ∷ stopped ∷ []

requests_accepted : run_transitions created requests ≡ ok stopped
unfolding transition_strategy_state validate_strategy_state_transition allowed_transitions
requests_accepted = refl

run_transitions_lem_example :
    (stage created + changes created requests ≤ stage stopped)
    × (changes created requests ≤ 5)
    × (is_terminal created ≡ true → (stopped ≡ created) × (changes created requests ≡ 0))
run_transitions_lem_example = run_transitions_lem requests created stopped requests_accepted

transition_ends_example :
    (transition_strategy_state degraded stopped ≡ ok stopped)
    × (transition_strategy_state degraded failed ≡ ok failed)
transition_ends_example = transition_ends degraded refl

abbrev policy : BoundedPolicy
policy = record {
  max_attempts = 2;
  restartable_failure_kinds = event_processing ∷ [];
  backoff = 10;
  deadline = 1000;
  jitter = 5;
}

abbrev failure : RestartFailure
failure = failure_of (str "strat_1") 100 1 (event_processing, 300)

decide_lem_example :
    (d : RestartDecision) × (decide policy failure ≡ ok d)
    × (d.should_restart ≡ may_restart policy failure)
    × (d.next_attempt ≡ (
        if may_restart policy failure then some (failure.previous_restart_attempts + 1) else none))
    × (d.restart_after ≡ (
        if may_restart policy failure
        then some (failure.latest_failure_at + policy.backoff)
        else none))
decide_lem_example = decide_lem policy failure

abbrev failures : List (FailureKind × ℕ)
failures =
    (event_processing, 200)
    ∷ (event_processing, 300)
    ∷ (event_processing, 400)
    ∷ (shutdown, 500)
    ∷ []

granted_restarts_bound_example : 0 + granted_restarts policy (str "strat_1") 100 0 failures ≤ 2
granted_restarts_bound_example =
    granted_restarts_bound policy (str "strat_1") 100 failures 0 (omega arith)
