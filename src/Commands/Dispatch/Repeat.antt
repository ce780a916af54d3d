-- ===== src/Commands/Dispatch/Repeat.antt =====
-- A request that is repeated under its idempotency key, over the in-memory hook.
use pmrp.Common.{ℕ, ◌≡◌, refl, ap, ◌⊎◌, inl, inr, none, some, arith, Bool-cases}
use pmrp.Common.Equality.{nat_eqb_iff}
use pmrp.Common.Text.{Text, text_eq}
use pmrp.Common.Dict.{get, IsUnique}
use pmrp.Common.Result.{ok}
use pmrp.Commands.Types.{
  FingerprintPayload, CommandEnvelope, CommandFailure, CommandDispatchResult, DispatchStatus,
  claimed,
}
use pmrp.Commands.Registry.{
  CommandHandlerRegistration, HandlerOutcome, returned, rejected_error, handler_error, other_error,
  Registrations, find_registration,
}
use pmrp.Commands.Hook.{Hook, completed_entry, failed_entry, in_memory_hook, before_dispatch}
use pmrp.Commands.Hook.Laws.{
  IsValid, before_dispatch-completed, before_dispatch-failed, before_dispatch-IsValid,
  get-record_success, get-record_failure,
}
use pmrp.Commands.Dispatch.{
  result_for_decision, record_failure_result, conclude, run_claimed, dispatch_registered, dispatch,
  is_past,
}

module _ {A R : Type 0} (digest : FingerprintPayload A → Text) where
  -- The hook has stored the outcome that the result reports.
  abbrev pub Reports : CommandEnvelope A → CommandDispatchResult R → Hook R → Type 0
  Reports c r h =
      ((get c.idempotency_key h.entries ≡ some (completed_entry (digest c.payload) r.result))
        × (r.failure ≡ none))
      ⊎ ((x : CommandFailure) × (get c.idempotency_key h.entries
            ≡ some (failed_entry (digest c.payload) x))
          × (r.failure ≡ some x)
          × (r.result ≡ none))

  record_failure_result-Reports :
      (c : CommandEnvelope A) (x : CommandFailure) (status : DispatchStatus) (h : Hook R)
      → IsUnique h.entries
      → let (r, h') = record_failure_result (in_memory_hook digest) c x status h in Reports c r h'
  unfolding record_failure_result
  record_failure_result-Reports c x status h u =
      inr (x, get-record_failure digest c x h u, refl, refl)

  conclude-Reports :
      (c : CommandEnvelope A) (o : HandlerOutcome R) (h : Hook R)
      → IsUnique h.entries
      → let (r, h') = conclude (in_memory_hook digest) c o h in Reports c r h'
  unfolding conclude
  conclude-Reports c (returned r) h u = inl (get-record_success digest c r h u, refl)
  conclude-Reports c (rejected_error m b) h u = record_failure_result-Reports c _ _ h u
  conclude-Reports c (handler_error k m b) h u = record_failure_result-Reports c _ _ h u
  conclude-Reports c (other_error n) h u = record_failure_result-Reports c _ _ h u

  module _ {W : Type 0} where
    run_claimed-Reports :
        (g : CommandHandlerRegistration A R W) (now : ℕ) (c : CommandEnvelope A) (h : Hook R)
        (w : W)
        → IsUnique h.entries
        → let (r, h', _) = run_claimed (in_memory_hook digest) g now c h w in Reports c r h'
    unfolding run_claimed
    run_claimed-Reports g now c h w u = elim (Bool-cases (is_past c.deadline_at now)) [
      | inl late ↦ rw late (record_failure_result-Reports c _ _ h u)
      | inr timely ↦ rw timely (conclude-Reports c _ h u)
    ]

    -- The answer to a command whose outcome is stored: nothing runs.
    dispatch_registered_stored :
        (g : CommandHandlerRegistration A R W) (now : ℕ) (c : CommandEnvelope A)
        (r : CommandDispatchResult R) (h : Hook R) (w : W)
        → Reports c r h
        → let (r', _, w') = dispatch_registered (in_memory_hook digest) g now c h w in
          (r'.status ≡ DispatchStatus.duplicate)
          × (r'.result ≡ r.result)
          × (r'.failure ≡ r.failure)
          × (w' ≡ w)
    unfolding dispatch_registered result_for_decision
    dispatch_registered_stored g now c r h w (inl (e, f)) =
        ground (arith, before_dispatch-completed digest c r.result h e)
    dispatch_registered_stored g now c r h w (inr (x, e, f, n)) =
        ground (arith, before_dispatch-failed digest c x h e)

    -- A claim that is granted runs the handler, unless the deadline has passed.
    dispatch_registered_claimed :
        (g : CommandHandlerRegistration A R W) (now : ℕ) (c : CommandEnvelope A) (h : Hook R)
        (w : W)
        → (before_dispatch digest c h).0.status ≡ claimed
        → dispatch_registered (in_memory_hook digest) g now c h w
          ≡ run_claimed (in_memory_hook digest) g now c (before_dispatch digest c h).1 w
    unfolding dispatch_registered result_for_decision
    dispatch_registered_claimed g now c h w e = rw (e, dispatch_registered)

    dispatch-registered :
        (gs : Registrations A R W) (g : CommandHandlerRegistration A R W) (now : ℕ)
        (c : CommandEnvelope A) (h : Hook R) (w : W)
        → find_registration c.command_type gs ≡ ok g
        → g.schema_version ≡ c.schema_version
        → dispatch (in_memory_hook digest) gs now c h w
          ≡ dispatch_registered (in_memory_hook digest) g now c h w
    unfolding dispatch
    dispatch-registered gs g now c h w found version =
        rw (found, dispatch) (rw ((nat_eqb_iff g.schema_version c.schema_version).1 version))

    -- Once a claimed command has been dispatched, a request with the same key and content is
    -- answered as a duplicate: it reports the first result or failure, whatever the clock says,
    -- and no handler runs, so the rest of the program's state is as it was.
    pub dispatch_repeated :
        (gs : Registrations A R W) (g : CommandHandlerRegistration A R W) (now later : ℕ)
        (c c' : CommandEnvelope A) (h : Hook R) (w w₁ : W)
        → IsValid h
        → find_registration c.command_type gs ≡ ok g
        → g.schema_version ≡ c.schema_version
        → (before_dispatch digest c h).0.status ≡ claimed
        → c'.idempotency_key ≡ c.idempotency_key
        → c'.payload ≡ c.payload
        → let (r, h', _) = dispatch (in_memory_hook digest) gs now c h w in
          let (r', _, w') = dispatch (in_memory_hook digest) gs later c' h' w₁ in
          (r'.status ≡ DispatchStatus.duplicate)
          × (r'.result ≡ r.result)
          × (r'.failure ≡ r.failure)
          × (w' ≡ w₁)
    dispatch_repeated gs g now later c c' h w w₁ v found version granted same_key same_payload =
        let h₁ = (before_dispatch digest c h).1 in
        let first = run_claimed (in_memory_hook digest) g now c h₁ w in
        let reports : Reports c first.0 first.1 =
          run_claimed-Reports g now c h₁ w (before_dispatch-IsValid digest c h v).unique in
        rw (dispatch-registered gs g now c h w found version) (
          rw (dispatch_registered_claimed g now c h w granted) (
            rw
              (dispatch-registered gs g later c' first.1 w₁
                (rw (ap (λ (p : FingerprintPayload A). p.command_type) same_payload) found)
                (rw (ap (λ (p : FingerprintPayload A). p.schema_version) same_payload) version))
              (dispatch_registered_stored g later c' first.0 first.1 w₁
                (rw (same_key, same_payload) reports))))
