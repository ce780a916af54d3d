-- ===== src/Strategies/Lifecycle.antt =====
-- Lifecycle transitions (strategies/lifecycle.py).
pub mod Lifetime
use pmrp.Common.{ℕ, Bool, true, false, List, [], ◌∷◌, nat_eqb, any_of, if◌then◌else◌}
use pmrp.Common.Result.{Result, ok, raise, ◌>>=◌, ◌>>◌}

pub data StrategyState : Type 0 where
  created initializing running degraded draining stopped failed : StrategyState

-- `StrategyLifecycleError`, with its two states.
pub data LifecycleError : Type 0 where
  transition_invalid : StrategyState → StrategyState → LifecycleError

-- The position of a state in the enumeration.
abbrev pub index : StrategyState → ℕ
index created = 0
index initializing = 1
index running = 2
index degraded = 3
index draining = 4
index stopped = 5
index failed = 6

abbrev pub same_state : StrategyState → StrategyState → Bool
same_state a b = nat_eqb (index a) (index b)

abbrev pub terminal_strategy_states : List StrategyState
terminal_strategy_states = stopped ∷ failed ∷ []

-- `ALLOWED_STRATEGY_STATE_TRANSITIONS`
unfoldable pub allowed_transitions : StrategyState → List StrategyState
allowed_transitions created = initializing ∷ stopped ∷ failed ∷ []
allowed_transitions initializing = running ∷ degraded ∷ stopped ∷ failed ∷ []
allowed_transitions running = degraded ∷ draining ∷ stopped ∷ failed ∷ []
allowed_transitions degraded = draining ∷ stopped ∷ failed ∷ []
allowed_transitions draining = stopped ∷ failed ∷ []
allowed_transitions stopped = []
allowed_transitions failed = []

unfoldable pub validate_strategy_state_transition :
    StrategyState → StrategyState → Result LifecycleError (Unit {0})
validate_strategy_state_transition previous next =
    if same_state previous next
    then ok tt
    else if any_of (same_state next) (allowed_transitions previous)
    then ok tt
    else raise (transition_invalid previous next)

unfoldable pub transition_strategy_state :
    StrategyState → StrategyState → Result LifecycleError StrategyState
transition_strategy_state previous next =
    validate_strategy_state_transition previous next >> ok next
