-- ===== src/Commands/Tests.antt =====
-- Concrete commands, and the theorems of the dispatcher at them.
use pmrp.Common.{ℕ, suc, ◌≡◌, refl, none, some, [], ◌∷◌, arith}
use pmrp.Common.Int.{pos}
use pmrp.Common.Text.{Text, text_eq, str}
use pmrp.Common.Dict.{get}
use pmrp.Common.Result.{ok}
use pmrp.Commands.Types.{FingerprintPayload, CommandEnvelope, DispatchStatus, claimed}
use pmrp.Commands.Registry.{CommandHandlerRegistration, returned, Registrations, find_registration}
use pmrp.Commands.Hook.{
  Hook, claimed_entry, in_memory_hook, before_dispatch, claim_or_answer, claim, make_room,
}
use pmrp.Commands.Hook.Laws.{IsValid, before_dispatch-claimed}
use pmrp.Commands.Dispatch.{dispatch}
use pmrp.Commands.Dispatch.Repeat.{dispatch_repeated}
use pmrp.Commands.Dispatch.Interleaving.{System, begun, then_step, start, IsSafe, History-IsSafe}

-- Attributes are a number, and the digest is the command's type with its attributes.
abbrev payload : FingerprintPayload ℕ
payload = record {
  attributes = 7;
  command_type = str "order.submit";
  deadline_at = some 100;
  issuer = str "ops";
  priority = pos 0;
  schema_version = 1;
}

abbrev digest : FingerprintPayload ℕ → Text
digest p = p.attributes ∷ p.command_type

abbrev command : CommandEnvelope ℕ
command = record {
  command_id = str "cmd_1";
  payload = payload;
  issued_at = 10;
  correlation_id = str "corr_1";
  causation_id = none;
  trace_id = none;
  idempotency_key = str "key-1";
}

abbrev retry : CommandEnvelope ℕ
retry = record command { command_id = str "cmd_2"; issued_at = 30 }

-- The handler counts its calls in the program's state.
abbrev registration : CommandHandlerRegistration ℕ ℕ ℕ
registration = record {
  command_type = str "order.submit";
  schema_name = str "submit_order";
  schema_version = 1;
  handler = λ c context w. (returned (some w), suc w);
}

abbrev registrations : Registrations ℕ ℕ ℕ
registrations = (str "order.submit", registration) ∷ []

abbrev empty_hook : Hook ℕ
empty_hook = record { max_entries = 2; entries = [] }

empty_hook-IsValid : IsValid empty_hook
empty_hook-IsValid = record { unique = tt; bounded = omega arith }

registration_found : find_registration (str "order.submit") registrations ≡ ok registration
unfolding find_registration
registration_found = refl

command_claimed : (before_dispatch digest command empty_hook).0.status ≡ claimed
unfolding before_dispatch claim_or_answer claim make_room
command_claimed = refl

dispatch_repeated_example :
    let (r, h, _) = dispatch (in_memory_hook digest) registrations 50 command empty_hook 3 in
    let (r', _, w) = dispatch (in_memory_hook digest) registrations 500 retry h 4 in
    (r'.status ≡ DispatchStatus.duplicate)
    × (r'.result ≡ r.result)
    × (r'.failure ≡ r.failure)
    × (w ≡ 4)
dispatch_repeated_example =
    dispatch_repeated digest registrations registration 50 500 command retry empty_hook 3 4
      empty_hook-IsValid registration_found refl command_claimed refl refl

abbrev idle : System ℕ ℕ
idle = record { hook = empty_hook; flights = [] }

History-IsSafe_example :
    IsSafe digest
      (record { hook = (before_dispatch digest command empty_hook).1; flights = command ∷ [] })
History-IsSafe_example =
    History-IsSafe digest {s = idle}
      (record { valid = empty_hook-IsValid; held = tt; distinct = tt })
      (then_step begun (start command command_claimed))

before_dispatch-claimed_example :
    (get (str "key-1") empty_hook.entries ≡ none)
    × (get (str "key-1") (before_dispatch digest command empty_hook).1.entries
        ≡ some (claimed_entry (digest payload)))
before_dispatch-claimed_example = before_dispatch-claimed digest command empty_hook command_claimed
