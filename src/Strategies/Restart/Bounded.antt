-- ===== src/Strategies/Restart/Bounded.antt =====
-- What the bounded policy grants, failure by failure and over a strategy's life.
use pmrp.Common.{
  ℕ, suc, ◌+◌, ◌≤◌, ◌≡◌, refl, sym, inl, inr, Bool, true, false, ◌&&◌, none, some, List, [], ◌∷◌,
  arith, ltb, leb, any_of, if◌then◌else◌, Bool-cases,
}
use pmrp.Common.Text.{Text, str}
use pmrp.Common.Result.{Result, ok, raise}
use pmrp.Strategies.Restart.{
  RestartError, FailureKind, same_kind, RestartFailure, RestartDecision, BoundedPolicy,
  make_restart_decision, allow, decide,
}

-- An eligible kind, an attempt left, and a restart that is over within the deadline.
abbrev pub may_restart : BoundedPolicy → RestartFailure → Bool
may_restart p f =
    any_of (same_kind f.failure_kind) p.restartable_failure_kinds
    && (ltb f.previous_restart_attempts p.max_attempts
        && leb (f.latest_failure_at + p.backoff + p.jitter) (f.first_failure_at + p.deadline))

allow_valid :
    (p : BoundedPolicy) (f : RestartFailure) → make_restart_decision (allow p f) ≡ ok (allow p f)
unfolding make_restart_decision
allow_valid p f = ground arith

abbrev denial : Text → RestartDecision
denial reason = record {
  should_restart = false;
  reason_code = reason;
  next_attempt = none;
  restart_after = none;
  backoff = 0;
  jitter = 0;
}

-- The policy always decides. It restarts just when the failure's kind is eligible, an attempt is
-- left, and the latest planned restart, with its jitter, is within the deadline of the first
-- failure; the restart then counts one attempt more, and comes after the backoff.
pub decide_lem :
    (p : BoundedPolicy) (f : RestartFailure)
    → (d : RestartDecision) × (decide p f ≡ ok d)
      × (d.should_restart ≡ may_restart p f)
      × (d.next_attempt
          ≡ (if may_restart p f then some (f.previous_restart_attempts + 1) else none))
      × (d.restart_after
          ≡ (if may_restart p f then some (f.latest_failure_at + p.backoff) else none))
unfolding decide make_restart_decision
decide_lem p f =
    let end = f.first_failure_at + p.deadline in
    elim (Bool-cases (any_of (same_kind f.failure_kind) p.restartable_failure_kinds)) [
      | inr other ↦
          denied (str "strategy_restart_failure_kind_not_restartable") (ground (arith, other))
            (rw other refl)
      | inl kind ↦ elim (Bool-cases (leb p.max_attempts f.previous_restart_attempts)) [
        | inl spent ↦
            denied (str "strategy_restart_attempts_exhausted") (ground (arith, spent))
              (rw (kind, spent) refl)
        | inr left ↦ elim (Bool-cases (ltb end f.latest_failure_at)) [
          | inl late ↦
              denied (str "strategy_restart_deadline_exceeded") (ground (arith, late))
                (rw (kind, left, late) refl)
          | inr early ↦ elim (Bool-cases (ltb end (f.latest_failure_at + p.backoff + p.jitter))) [
            | inl over ↦
                denied (str "strategy_restart_deadline_exceeded") (ground (arith, over))
                  (rw (kind, left, early, over) refl)
            | inr within ↦
                let granted : may_restart p f ≡ true = ground (arith, kind, left, within) in
                (
                  allow p f,
                  rw (kind, left, early, within) (allow_valid p f),
                  sym granted,
                  rw granted refl,
                  rw granted refl,
                )
          ]
        ]
      ]
    ]
  where
    denied :
        (reason : Text)
        → may_restart p f ≡ false
        → decide p f ≡ ok (denial reason)
        → (d : RestartDecision) × (decide p f ≡ ok d)
          × (d.should_restart ≡ may_restart p f)
          × (d.next_attempt
              ≡ (if may_restart p f then some (f.previous_restart_attempts + 1) else none))
          × (d.restart_after
              ≡ (if may_restart p f then some (f.latest_failure_at + p.backoff) else none))
    denied reason no_restart e =
        (denial reason, e, sym no_restart, rw no_restart refl, rw no_restart refl)

-- How many restarts the policy grants to a strategy that fails as listed, each failure with the
-- attempts that were granted before, until the first denial.
abbrev pub is_granted : Result RestartError RestartDecision → Bool
is_granted (ok d) = d.should_restart
is_granted (raise x) = false

abbrev pub failure_of : Text → ℕ → ℕ → FailureKind × ℕ → RestartFailure
failure_of id first attempts (kind, time) = record {
  strategy_id = id;
  failure_kind = kind;
  reason_code = str "failed";
  previous_restart_attempts = attempts;
  first_failure_at = first;
  latest_failure_at = time;
}

abbrev pub granted_restarts : BoundedPolicy → Text → ℕ → ℕ → List (FailureKind × ℕ) → ℕ
granted_restarts p id first attempts [] = 0
granted_restarts p id first attempts (x ∷ xs) =
    let rest = granted_restarts p id first (suc attempts) xs in
    if is_granted (decide p (failure_of id first attempts x)) then suc rest else 0

-- However a strategy fails, the policy grants it its number of attempts at most.
pub granted_restarts_bound :
    (p : BoundedPolicy) (id : Text) (first : ℕ) (xs : List (FailureKind × ℕ)) (attempts : ℕ)
    → attempts ≤ p.max_attempts
    → attempts + granted_restarts p id first attempts xs ≤ p.max_attempts
granted_restarts_bound p id first [] attempts h = ground (arith, h)
granted_restarts_bound p id first (x ∷ xs) attempts h =
    let f = failure_of id first attempts x in
    let (d, ran, verdict, _, _) = decide_lem p f in
    elim (Bool-cases (may_restart p f)) [
      | inr refused ↦ rw (ran, verdict, refused) (ground (arith, h))
      | inl granted ↦
          let room : suc attempts ≤ p.max_attempts = ground (arith, granted) in
          rw (ran, verdict, granted)
            (ground (arith, granted_restarts_bound p id first xs (suc attempts) room))
    ]
