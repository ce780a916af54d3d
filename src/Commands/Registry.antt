-- ===== src/Commands/Registry.antt =====
-- `CommandHandlerRegistry` (commands/registry.py): handlers by command type.
use pmrp.Common.{ℕ, Bool, Option, none, some, [], ◌∷◌, List, if◌then◌else◌, not, ltb}
use pmrp.Common.Text.{Text, text_eq}
use pmrp.Common.Dict.{Dict, get, put, contains}
use pmrp.Common.Int.{ℤ}
use pmrp.Common.Result.{Result, ok, raise, ◌>>=◌, ◌>>◌, raise_if}
use pmrp.Commands.Names.{is_command_type, is_schema_name}
use pmrp.Commands.Types.{CommandEnvelope, FailureKind}

pub record CommandContext : Type 0 where
  pub command_id : Text
  pub command_type : Text
  pub issued_at : ℕ
  pub issuer : Text
  pub correlation_id : Text
  pub causation_id : Option Text
  pub trace_id : Option Text
  pub idempotency_key : Text
  pub deadline_at : Option ℕ
  pub priority : ℤ

-- `CommandContext.from_command`
pub from_command : {A : Type 0} → CommandEnvelope A → CommandContext
from_command c = record {
  command_id = c.command_id;
  command_type = c.command_type;
  issued_at = c.issued_at;
  issuer = c.issuer;
  correlation_id = c.correlation_id;
  causation_id = c.causation_id;
  trace_id = c.trace_id;
  idempotency_key = c.idempotency_key;
  deadline_at = c.deadline_at;
  priority = c.priority;
}

-- How an awaited handler ends: it returns, or raises `CommandRejectedError` (message and whether
-- retryable), `CommandHandlerError` (with its kind) or another exception (its type's name).
pub data HandlerOutcome (R : Type 0) : Type 0 where
  returned : Option R → HandlerOutcome R
  rejected_error : Text → Bool → HandlerOutcome R
  handler_error : FailureKind → Text → Bool → HandlerOutcome R
  other_error : Text → HandlerOutcome R

-- A handler acts on the rest of the program, whose state is `W`.
pub record CommandHandlerRegistration (A R W : Type 0) : Type 0 where
  pub command_type : Text
  pub schema_name : Text
  pub schema_version : ℕ
  pub handler : CommandEnvelope A → CommandContext → W → HandlerOutcome R × W

pub data RegistryError : Type 0 where
  already_registered : RegistryError
  invalid_command_type : RegistryError
  invalid_schema_name : RegistryError
  invalid_schema_version : RegistryError
  unknown_command_type : RegistryError

abbrev pub Registrations : Type 0 → Type 0 → Type 0 → Type 0
Registrations A R W = Dict Text (CommandHandlerRegistration A R W)

module _ {A R W : Type 0} where
  -- `CommandHandlerRegistration.__post_init__`
  pub post_init :
      CommandHandlerRegistration A R W → Result RegistryError (CommandHandlerRegistration A R W)
  post_init r = do
    raise_if (not (is_command_type r.command_type)) invalid_command_type
    raise_if (not (is_schema_name r.schema_name)) invalid_schema_name
    raise_if (ltb r.schema_version 1) invalid_schema_version
    ok r

  pub register :
      CommandHandlerRegistration A R W
      → Registrations A R W
      → Result RegistryError (Registrations A R W)
  register r d = do
    raise_if (contains r.command_type d) already_registered
    ok (put r.command_type r d)

  unfoldable pub find_registration :
      Text → Registrations A R W → Result RegistryError (CommandHandlerRegistration A R W)
  find_registration t d =
      if is_command_type t
      then elim (get t d) [ none ↦ raise unknown_command_type | some r ↦ ok r ]
      else raise invalid_command_type

  -- The constructor: the registrations are made in order, and the first that fails raises.
  pub create_registry :
      List (CommandHandlerRegistration A R W)
      → Registrations A R W
      → Result RegistryError (Registrations A R W)
  create_registry [] d = ok d
  create_registry (r ∷ rs) d = register r d >>= create_registry rs
