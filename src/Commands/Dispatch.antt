-- ===== src/Commands/Dispatch.antt =====
-- `CommandDispatcher.dispatch` (commands/dispatcher.py), over any idempotency hook.
pub mod Repeat
pub mod Interleaving
use pmrp.Common.{
  ℕ, Bool, true, false, ◌++◌, Option, none, some, ltb, nat_eqb, if◌then◌else◌, not, [], ◌∷◌,
}
use pmrp.Common.Text.{Text, str}
use pmrp.Common.Result.{ok, raise}
use pmrp.Commands.Types.{
  CommandEnvelope, CommandFailure, CommandDispatchResult, CommandIdempotencyDecision,
  CommandIdempotencyHook, DispatchStatus, FailureKind, claimed, duplicate_completed,
  duplicate_failed, in_progress_elsewhere, conflict, refused,
}
use pmrp.Commands.Registry.{
  CommandHandlerRegistration, HandlerOutcome, returned, rejected_error, handler_error, other_error,
  from_command, Registrations, find_registration,
}

-- `decision.reason or "…"`: an absent or empty reason is replaced.
abbrev pub reason_or : Option Text → Text → Text
reason_or none d = d
reason_or (some []) d = d
reason_or (some (c ∷ s)) d = c ∷ s

-- `command.deadline_at is not None and self._clock.now() > command.deadline_at`
abbrev pub is_past : Option ℕ → ℕ → Bool
is_past none now = false
is_past (some deadline) now = ltb deadline now

-- The failure that a raised exception becomes, and its status.
abbrev pub failure_of_rejection : Text → Bool → CommandFailure
failure_of_rejection message retryable = record {
  kind = FailureKind.handler_rejected;
  message = message;
  retryable = retryable;
}

abbrev pub failure_of_exception : Text → CommandFailure
failure_of_exception name = record {
  kind = FailureKind.handler_error;
  message = name ++ str " raised by command handler";
  retryable = false;
}

abbrev pub deadline_failure : CommandFailure
deadline_failure = record {
  kind = FailureKind.deadline_exceeded;
  message = str "command deadline has expired";
  retryable = false;
}

module _ {A R : Type 0} where
  -- `_result_for_failure`
  abbrev pub result_for_failure :
      CommandEnvelope A → CommandFailure → DispatchStatus → CommandDispatchResult R
  result_for_failure c x status = record {
    command_id = c.command_id;
    command_type = c.command_type;
    correlation_id = c.correlation_id;
    status = status;
    result = none;
    failure = some x;
  }

  abbrev pub result_of : CommandEnvelope A → Option R → DispatchStatus → CommandDispatchResult R
  result_of c r status = record {
    command_id = c.command_id;
    command_type = c.command_type;
    correlation_id = c.correlation_id;
    status = status;
    result = r;
    failure = none;
  }

  -- `_idempotency_hook_error`
  abbrev pub idempotency_hook_error : CommandEnvelope A → CommandDispatchResult R
  idempotency_hook_error c =
      result_for_failure c
        (record {
          kind = FailureKind.idempotency_hook_error;
          message = str "command idempotency hook raised an exception";
          retryable = true;
        })
        DispatchStatus.failed

  -- `_result_for_idempotency_decision`: `none` lets the dispatch go on.
  pub result_for_decision :
      CommandEnvelope A → CommandIdempotencyDecision R → Option (CommandDispatchResult R)
  result_for_decision c d = elim d.status [
    | claimed ↦ none
    | duplicate_completed ↦ some (result_of c d.result DispatchStatus.duplicate)
    | duplicate_failed ↦ elim d.failure [
      | none ↦ some (
          result_for_failure c
            (record {
              kind = FailureKind.idempotency_rejected;
              message = str "duplicate command has no failure metadata";
              retryable = false;
            })
            DispatchStatus.duplicate)
      | some x ↦ some (result_for_failure c x DispatchStatus.duplicate)
    ]
    | in_progress_elsewhere ↦ some (
        result_for_failure c
          (record {
            kind = FailureKind.duplicate_in_progress;
            message = reason_or d.reason (str "command idempotency key is already in progress");
            retryable = true;
          })
          DispatchStatus.rejected)
    | conflict ↦ some (
        result_for_failure c
          (record {
            kind = FailureKind.idempotency_conflict;
            message =
                reason_or d.reason (str "command idempotency key conflicts with another request");
            retryable = false;
          })
          DispatchStatus.rejected)
    | refused ↦ some (
        result_for_failure c
          (record {
            kind = FailureKind.idempotency_rejected;
            message = reason_or d.reason (str "command idempotency hook rejected command");
            retryable = true;
          })
          DispatchStatus.rejected)
  ]

  module _ {S : Type 0} (hook : CommandIdempotencyHook A R S) where
    -- `_record_failure`
    pub record_failure_result :
        CommandEnvelope A → CommandFailure → DispatchStatus → S → CommandDispatchResult R × S
    record_failure_result c x status s =
        let (reply, s') = hook.record_failure c x s in
        elim reply [
          | none ↦ (idempotency_hook_error c, s')
          | some _ ↦ (result_for_failure c x status, s')
        ]

    -- What follows the handler, by how it ended.
    pub conclude : CommandEnvelope A → HandlerOutcome R → S → CommandDispatchResult R × S
    conclude c (returned r) s =
        let (reply, s') = hook.record_success c r s in
        elim reply [
          | none ↦ (idempotency_hook_error c, s')
          | some _ ↦ (result_of c r DispatchStatus.completed, s')
        ]
    conclude c (rejected_error message retryable) s =
        record_failure_result c (failure_of_rejection message retryable) DispatchStatus.rejected s
    conclude c (handler_error kind message retryable) s =
        record_failure_result c (record { kind = kind; message = message; retryable = retryable })
          DispatchStatus.failed s
    conclude c (other_error name) s =
        record_failure_result c (failure_of_exception name) DispatchStatus.failed s

  module _ {S W : Type 0} (hook : CommandIdempotencyHook A R S) where
    -- What follows a granted claim. `now` is the clock's reading.
    pub run_claimed :
        CommandHandlerRegistration A R W
        → ℕ
        → CommandEnvelope A
        → S
        → W
        → CommandDispatchResult R × S × W
    run_claimed registration now c s w =
        let (late_result, late_s) =
          record_failure_result hook c deadline_failure DispatchStatus.rejected s in
        let (outcome, w') = registration.handler c (from_command c) w in
        let (result, s') = conclude hook c outcome s in
        if is_past c.deadline_at now then (late_result, late_s, w) else (result, s', w')

    -- What follows the registry's answer.
    pub dispatch_registered :
        CommandHandlerRegistration A R W
        → ℕ
        → CommandEnvelope A
        → S
        → W
        → CommandDispatchResult R × S × W
    dispatch_registered registration now c s w =
        let (reply, s') = hook.before_dispatch c s in
        elim reply [
          | none ↦ (idempotency_hook_error c, s', w)
          | some decision ↦ elim (result_for_decision c decision) [
            | some r ↦ (r, s', w)
            | none ↦ run_claimed registration now c s' w
          ]
        ]

    pub dispatch :
        Registrations A R W → ℕ → CommandEnvelope A → S → W → CommandDispatchResult R × S × W
    dispatch registrations now c s w = elim (find_registration c.command_type registrations) [
      | raise _ ↦ (
        result_for_failure c
            (record {
              kind = FailureKind.unknown_command_type;
              message = str "command type is not registered";
              retryable = false;
            })
            DispatchStatus.rejected,
        s,
        w,
      )
      | ok registration ↦
          if not (nat_eqb registration.schema_version c.schema_version)
          then (
            result_for_failure c
                (record {
                  kind = FailureKind.schema_version_mismatch;
                  message = str "command schema version does not match registered handler";
                  retryable = false;
                })
                DispatchStatus.rejected,
            s,
            w,
          )
          else dispatch_registered registration now c s w
    ]
