-- ===== src/Strategies/Restart.antt =====
-- Restart policies (strategies/restart.py). Durations are given as integers, which may be negative,
-- and times are not bounded.

pub mod Bounded
use pmrp.Common.{
  ℕ, suc, ◌+◌, Bool, true, false, not, ◌&&◌, ◌||◌, Option, none, some, List, [], ◌∷◌, ltb, leb,
  nat_eqb, any_of, if◌then◌else◌,
}
use pmrp.Common.Int.{ℤ, pos, negsuc}
use pmrp.Common.Text.{Text, str, is_blank_or_padded}
use pmrp.Common.Result.{Result, ok, raise, ◌>>=◌, ◌>>◌, raise_if}

-- The reason codes of `StrategyRestartPolicyError`.
pub data RestartError : Type 0 where
  text_invalid count_invalid duration_invalid : RestartError
  failure_kinds_invalid failure_time_order_invalid decision_invalid : RestartError

-- `StrategyRestartFailureKind`
pub data FailureKind : Type 0 where
  initialization subscription event_processing shutdown : FailureKind

abbrev pub kind_index : FailureKind → ℕ
kind_index initialization = 0
kind_index subscription = 1
kind_index event_processing = 2
kind_index shutdown = 3

abbrev pub same_kind : FailureKind → FailureKind → Bool
same_kind a b = nat_eqb (kind_index a) (kind_index b)

-- `StrategyRestartFailure`
pub record RestartFailure : Type 0 where
  pub strategy_id : Text
  pub failure_kind : FailureKind
  pub reason_code : Text
  pub previous_restart_attempts : ℕ
  pub first_failure_at : ℕ
  pub latest_failure_at : ℕ

-- `StrategyRestartFailure.__post_init__`
unfoldable pub make_failure : RestartFailure → Result RestartError RestartFailure
make_failure f = do
  raise_if (is_blank_or_padded f.reason_code) text_invalid
  raise_if (ltb f.latest_failure_at f.first_failure_at) failure_time_order_invalid
  ok f

-- `StrategyRestartDecision`
pub record RestartDecision : Type 0 where
  pub should_restart : Bool
  pub reason_code : Text
  pub next_attempt : Option ℕ
  pub restart_after : Option ℕ
  pub backoff : ℕ
  pub jitter : ℕ

abbrev pub is_absent : Option ℕ → Bool
is_absent none = true
is_absent (some n) = false

-- `_validate_positive_int`, of a number that may be absent.
abbrev pub validate_positive_int : Option ℕ → Result RestartError (Unit {0})
validate_positive_int none = raise count_invalid
validate_positive_int (some n) = raise_if (ltb n 1) count_invalid

-- `StrategyRestartDecision.__post_init__`
unfoldable pub make_restart_decision : RestartDecision → Result RestartError RestartDecision
make_restart_decision d =
    let allowed = (do
      validate_positive_int d.next_attempt
      raise_if (is_absent d.restart_after) decision_invalid
      ok d) in
    let denied = (do
      raise_if (not (is_absent d.next_attempt)) decision_invalid
      raise_if (not (is_absent d.restart_after)) decision_invalid
      ok d) in
    raise_if (is_blank_or_padded d.reason_code) text_invalid
    >> (if d.should_restart then allowed else denied)

-- `BoundedRestartPolicy`
pub record BoundedPolicy : Type 0 where
  pub max_attempts : ℕ
  pub restartable_failure_kinds : List FailureKind
  pub backoff : ℕ
  pub deadline : ℕ
  pub jitter : ℕ

-- `_validate_nonnegative_duration`
abbrev pub nonnegative_duration : ℤ → Result RestartError ℕ
nonnegative_duration (pos n) = ok n
nonnegative_duration (negsuc n) = raise duration_invalid

-- `_validate_positive_duration`
abbrev pub positive_duration : ℤ → Result RestartError ℕ
positive_duration (pos n) = raise_if (ltb n 1) duration_invalid >> ok n
positive_duration (negsuc n) = raise duration_invalid

abbrev pub has_no_kind : List FailureKind → Bool
has_no_kind [] = true
has_no_kind (k ∷ ks) = false

-- `BoundedRestartPolicy.__post_init__`
unfoldable pub make_bounded_policy :
    ℤ → List FailureKind → ℤ → ℤ → ℤ → Result RestartError BoundedPolicy
make_bounded_policy max_attempts kinds backoff deadline jitter = do
  attempts ← positive_count max_attempts
  raise_if (has_no_kind kinds) failure_kinds_invalid
  pause ← nonnegative_duration backoff
  limit ← positive_duration deadline
  noise ← nonnegative_duration jitter
  ok (record {
    max_attempts = attempts;
    restartable_failure_kinds = kinds;
    backoff = pause;
    deadline = limit;
    jitter = noise;
  })
  where
    positive_count : ℤ → Result RestartError ℕ
    positive_count (pos n) = raise_if (ltb n 1) count_invalid >> ok n
    positive_count (negsuc n) = raise count_invalid

-- `_deny`
abbrev pub deny : Text → Result RestartError RestartDecision
deny reason = make_restart_decision (record {
  should_restart = false;
  reason_code = reason;
  next_attempt = none;
  restart_after = none;
  backoff = 0;
  jitter = 0;
})

-- The decision that `decide` builds when it allows the restart.
abbrev pub allow : BoundedPolicy → RestartFailure → RestartDecision
allow p f = record {
  should_restart = true;
  reason_code = str "strategy_restart_allowed";
  next_attempt = some (f.previous_restart_attempts + 1);
  restart_after = some (f.latest_failure_at + p.backoff);
  backoff = p.backoff;
  jitter = p.jitter;
}

-- `NeverRestartPolicy.decide`, of the policy's reason code.
unfoldable pub decide_never : Text → RestartFailure → Result RestartError RestartDecision
decide_never reason f = deny reason

-- `BoundedRestartPolicy.decide`
unfoldable pub decide : BoundedPolicy → RestartFailure → Result RestartError RestartDecision
decide p f =
    if not (any_of (same_kind f.failure_kind) p.restartable_failure_kinds)
    then deny (str "strategy_restart_failure_kind_not_restartable")
    else if leb p.max_attempts f.previous_restart_attempts
    then deny (str "strategy_restart_attempts_exhausted")
    else if ltb (f.first_failure_at + p.deadline) f.latest_failure_at
    then deny (str "strategy_restart_deadline_exceeded")
    else if ltb (f.first_failure_at + p.deadline) (f.latest_failure_at + p.backoff + p.jitter)
    then deny (str "strategy_restart_deadline_exceeded")
    else make_restart_decision (allow p f)
