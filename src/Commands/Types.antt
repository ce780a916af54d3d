-- ===== src/Commands/Types.antt =====
-- The values that the dispatcher handles (schemas/commands.py, commands/dispatcher.py).
use pmrp.Common.{ℕ, Bool, Option}
use pmrp.Common.Int.{ℤ}
use pmrp.Common.Text.{Text}

-- `CommandDispatchStatus`
pub data DispatchStatus : Type 0 where
  completed duplicate rejected failed : DispatchStatus

-- `CommandFailureKind`
pub data FailureKind : Type 0 where
  unknown_command_type schema_version_mismatch deadline_exceeded : FailureKind
  duplicate_in_progress idempotency_conflict idempotency_rejected : FailureKind
  idempotency_hook_error handler_rejected handler_error : FailureKind

pub record CommandFailure : Type 0 where
  pub kind : FailureKind
  pub message : Text
  pub retryable : Bool

-- `CommandIdempotencyStatus`
pub data IdempotencyStatus : Type 0 where
  claimed duplicate_completed duplicate_failed : IdempotencyStatus
  in_progress_elsewhere conflict refused : IdempotencyStatus

-- The fields that `_command_idempotency_fingerprint` hashes. `A` is the type of the canonical
-- attribute mappings; times count microseconds.
pub record FingerprintPayload (A : Type 0) : Type 0 where
  pub attributes : A
  pub command_type : Text
  pub deadline_at : Option ℕ
  pub issuer : Text
  pub priority : ℤ
  pub schema_version : ℕ

pub record CommandEnvelope (A : Type 0) : Type 0 where
  pub command_id : Text
  pub payload : FingerprintPayload A
  pub open payload use *
  pub issued_at : ℕ
  pub correlation_id : Text
  pub causation_id : Option Text
  pub trace_id : Option Text
  pub idempotency_key : Text

-- `R` is the type of what handlers return, other than `None`.
pub record CommandDispatchResult (R : Type 0) : Type 0 where
  pub command_id : Text
  pub command_type : Text
  pub correlation_id : Text
  pub status : DispatchStatus
  pub result : Option R
  pub failure : Option CommandFailure

pub record CommandIdempotencyDecision (R : Type 0) : Type 0 where
  pub status : IdempotencyStatus
  pub result : Option R
  pub failure : Option CommandFailure
  pub reason : Option Text

-- The dispatcher's protocol `CommandIdempotencyHook`: a call may raise (`none`), and returns the
-- hook's next state.
pub record CommandIdempotencyHook (A R S : Type 0) : Type 0 where
  pub before_dispatch : CommandEnvelope A → S → Option (CommandIdempotencyDecision R) × S
  pub record_success : CommandEnvelope A → Option R → S → Option (Unit {0}) × S
  pub record_failure : CommandEnvelope A → CommandFailure → S → Option (Unit {0}) × S
