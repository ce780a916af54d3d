-- ===== src/Commands/Dispatch/Interleaving.antt =====
-- Concurrent dispatches over one in-memory hook. The hook's methods hold its lock, so a run is a
-- sequence of their calls; between its claim and its record a command is in flight.
use pmrp.Common.{
  ◌≡◌, ◌≢◌, refl, sym, ap, Option, some, List, [], ◌∷◌, ◌++◌, All, All-delete, All-map, All-zip,
  subst,
}
use pmrp.Common.Text.{Text, text_eq}
use pmrp.Common.Dict.{get}
use pmrp.Commands.Types.{FingerprintPayload, CommandEnvelope, CommandFailure, claimed}
use pmrp.Commands.Hook.{
  Hook, Entry, claimed_entry, before_dispatch, record_success, record_failure, store,
}
use pmrp.Commands.Hook.Laws.{
  IsValid, before_dispatch-claimed, before_dispatch-IsValid, before_dispatch-in_progress,
  store-IsValid, get-store_in_progress, record_success_lem, record_failure_lem,
}

pub record System (A R : Type 0) : Type 0 where
  pub hook : Hook R
  pub flights : List (CommandEnvelope A)

module _ {A : Type 0} where
  -- No two of the commands have one idempotency key.
  abbrev pub Distinct : List (CommandEnvelope A) → Type 0
  Distinct [] = Unit
  Distinct (c ∷ cs) = All (λ c'. c'.idempotency_key ≢ c.idempotency_key) cs × Distinct cs

  Distinct-delete :
      (xs : List (CommandEnvelope A)) (c : CommandEnvelope A) (ys : List (CommandEnvelope A))
      → Distinct (xs ++ c ∷ ys)
      → All (λ c'. c.idempotency_key ≢ c'.idempotency_key) (xs ++ ys) × Distinct (xs ++ ys)
  Distinct-delete [] c ys d = (All-map _ _ (λ a n e. n (sym e)) ys d.0, d.1)
  Distinct-delete (x ∷ xs) c ys d =
      let rest = Distinct-delete xs c ys d.1 in
      let split = All-delete (λ c'. c'.idempotency_key ≢ x.idempotency_key) xs c ys d.0 in
      ((split.0, rest.0), (split.1, rest.1))

module _ {A R : Type 0} (digest : FingerprintPayload A → Text) where
  -- One call of the hook by one of the dispatches.
  pub data Step (s : System A R) : System A R → Type 0 where
    start :
        (c : CommandEnvelope A)
        → (before_dispatch digest c s.hook).0.status ≡ claimed
        → Step s (record { hook = (before_dispatch digest c s.hook).1; flights = c ∷ s.flights })
    answer :
        (c : CommandEnvelope A)
        → (before_dispatch digest c s.hook).0.status ≢ claimed
        → Step s (record { hook = (before_dispatch digest c s.hook).1; flights = s.flights })
    succeed :
        (c : CommandEnvelope A) (r : Option R) (xs ys : List (CommandEnvelope A))
        → s.flights ≡ xs ++ c ∷ ys
        → Step s (record { hook = record_success digest c r s.hook; flights = xs ++ ys })
    fail :
        (c : CommandEnvelope A) (x : CommandFailure) (xs ys : List (CommandEnvelope A))
        → s.flights ≡ xs ++ c ∷ ys
        → Step s (record { hook = record_failure digest c x s.hook; flights = xs ++ ys })

  pub data History (first : System A R) : System A R → Type 0 where
    begun : History first first
    then_step : {now after : System A R} → History first now → Step now after → History first after

  -- The hook knows the command to be in progress.
  abbrev pub Holds : Hook R → CommandEnvelope A → Type 0
  Holds h c = get c.idempotency_key h.entries ≡ some (claimed_entry (digest c.payload))

  pub record IsSafe (s : System A R) : Type 0 where
    pub valid : IsValid s.hook
    pub held : All (Holds s.hook) s.flights
    pub distinct : Distinct s.flights

  -- Recording the outcome of a flight leaves the others held.
  store-IsSafe :
      (s : System A R) (c : CommandEnvelope A) (x : Entry R) (xs ys : List (CommandEnvelope A))
      → s.flights ≡ xs ++ c ∷ ys
      → IsSafe s
      → IsSafe (record { hook = store c.idempotency_key x s.hook; flights = xs ++ ys })
  store-IsSafe s c x xs ys e safe =
      let held = All-delete (Holds s.hook) xs c ys (subst (All (Holds s.hook)) e safe.held) in
      let parted = Distinct-delete xs c ys (subst Distinct e safe.distinct) in
      record {
        valid = store-IsValid c.idempotency_key x s.hook safe.valid (λ n. cc (n, held.0));
        held =
            All-map _ _
              (λ c' p.
                get-store_in_progress c.idempotency_key c'.idempotency_key x _ s.hook
                  safe.valid.unique p.0 p.1 refl)
              (xs ++ ys) (All-zip _ _ (xs ++ ys) parted.0 held.1);
        distinct = parted.1;
      }

  before_dispatch-held :
      (s : System A R) (c : CommandEnvelope A)
      → IsSafe s
      → All (Holds (before_dispatch digest c s.hook).1) s.flights
  before_dispatch-held s c safe =
      All-map _ _
        (λ c' p.
          before_dispatch-in_progress digest c c'.idempotency_key _ s.hook safe.valid.unique p refl)
        s.flights safe.held

  pub Step-IsSafe : {s t : System A R} → Step s t → IsSafe s → IsSafe t
  Step-IsSafe {s} (start c granted) safe =
      let (fresh, taken) = before_dispatch-claimed digest c s.hook granted in
      record {
        valid = before_dispatch-IsValid digest c s.hook safe.valid;
        held = (taken, before_dispatch-held s c safe);
        distinct = (
          All-map _ _ (λ c' p e. absurd (cc (p, fresh, ap (λ (k : Text). get k s.hook.entries) e)))
              s.flights safe.held,
          safe.distinct,
        );
      }
  Step-IsSafe {s} (answer c refused) safe = record {
    valid = before_dispatch-IsValid digest c s.hook safe.valid;
    held = before_dispatch-held s c safe;
    distinct = safe.distinct;
  }
  Step-IsSafe {s} (succeed c r xs ys e) safe =
      rw (record_success_lem digest c r s.hook) (store-IsSafe s c _ xs ys e safe)
  Step-IsSafe {s} (fail c x xs ys e) safe =
      rw (record_failure_lem digest c x s.hook) (store-IsSafe s c _ xs ys e safe)

  -- Whatever the order of the calls, no two commands with one idempotency key are ever in flight
  -- together, each one in flight is held in the table as in progress, and the table keeps within
  -- its capacity with each key once.
  pub History-IsSafe : {s t : System A R} → IsSafe s → History s t → IsSafe t
  History-IsSafe safe begun = safe
  History-IsSafe safe (then_step r st) = Step-IsSafe st (History-IsSafe safe r)
