-- ===== src/Risk/Engine/Decision.antt =====
-- `RiskEngine.evaluate`: it decides every intent, and approves only what every rule passes.
use pmrp.Common.{
  ℕ, ◌≤◌, ◌≡◌, refl, ap, ◌∙◌, inl, inr, Bool, true, false, not, ◌&&◌, Option, none, some, List, [],
  ◌∷◌, ◌++◌, arith, any_of, all_of, All, Bool-cases, nat_eqb, Option-cases,
}
use pmrp.Common.Text.{Text, str}
use pmrp.Common.Result.{ok}
use pmrp.Risk.Types.{
  OrderIntent, RiskRuleResult, make_decision, RiskDecision, is_bad_length, is_empty, is_none,
  expires_by, RiskDecisionStatus, approved, rejected, error,
}
use pmrp.Risk.Engine.{
  RiskContext, RiskEngine, failed_result, limit_price_missing_reason, decision_status, is_approved,
  expiry, if_approved, validate_input_snapshot_id, require_limit_price, decision_of, evaluate,
}
use pmrp.Risk.Engine.Evaluation.{
  IsReady, passes, decision_status-approved, rule_error_result_lem, evaluate_rules_lem,
}

all_of-snoc :
    (xs : List RiskRuleResult) (x : RiskRuleResult)
    → x.passed ≡ false
    → all_of (λ r. r.passed) (xs ++ x ∷ []) ≡ false
all_of-snoc [] x h = ground (arith, h)
all_of-snoc (y ∷ xs) x h = ground (arith, all_of-snoc xs x h)

is_empty-snoc : (xs : List RiskRuleResult) (x : RiskRuleResult) → is_empty (xs ++ x ∷ []) ≡ false
is_empty-snoc [] x = refl
is_empty-snoc (y ∷ xs) x = refl

none_failed :
    (xs : List RiskRuleResult)
    → all_of (λ r. r.passed) xs ≡ true
    → any_of (λ r. not r.passed) xs ≡ false
none_failed [] h = refl
none_failed (x ∷ xs) h = ground (arith, none_failed xs)

pub is_approved_inversion : (s : RiskDecisionStatus) → is_approved s ≡ true → s ≡ approved
is_approved_inversion approved h = refl
is_approved_inversion rejected h = ground arith
is_approved_inversion error h = ground arith

pub expires_by-expiry :
    (start : ℕ) (ttl : Option ℕ)
    → ((t : ℕ) → ttl ≡ some t → 1 ≤ t)
    → expires_by start (expiry start ttl) ≡ false
expires_by-expiry start none h = refl
expires_by-expiry start (some t) h = let l = h t refl in ground arith

module _ {X : Type 0} where
  -- An engine, and a call of it, that give no constructor a value out of its bounds.
  pub record IsReadyCall (engine : RiskEngine X) (intent : OrderIntent) (context : RiskContext X)
      (id : Text) : Type 0 where
    pub has_rules : is_empty engine.rules ≡ false
    pub rules_ready : All (IsReady intent context) engine.rules
    pub hash_fits : is_bad_length 128 engine.configuration_hash ≡ false
    pub ttl_positive : (t : ℕ) → engine.approval_ttl ≡ some t → 1 ≤ t
    pub id_fits : is_bad_length 128 id ≡ false
    pub quantity_positive : 1 ≤ intent.quantity

  decision_approved :
      (engine : RiskEngine X) (intent : OrderIntent) (context : RiskContext X) (id : Text)
      (rs : List RiskRuleResult) (p : ℕ)
      → IsReadyCall engine intent context id
      → intent.limit_price ≡ some p
      → is_empty rs ≡ false
      → all_of (λ r. r.passed) rs ≡ true
      → make_decision (decision_of engine intent context id (rs, approved))
        ≡ ok (decision_of engine intent context id (rs, approved))
  unfolding make_decision decision_of
  decision_approved engine intent context id rs p c e n a =
      let positive : nat_eqb intent.quantity 0 ≡ false = ground (arith, c.quantity_positive) in
      rw
        (
          c.id_fits,
          c.hash_fits,
          e,
          n,
          none_failed rs a,
          expires_by-expiry context.evaluated_at engine.approval_ttl c.ttl_positive,
          positive,
        )
        refl

  decision_refused :
      (engine : RiskEngine X) (intent : OrderIntent) (context : RiskContext X) (id : Text)
      (rs : List RiskRuleResult) (s : RiskDecisionStatus)
      → IsReadyCall engine intent context id
      → is_approved s ≡ false
      → is_empty rs ≡ false
      → all_of (λ r. r.passed) rs ≡ false
      → make_decision (decision_of engine intent context id (rs, s))
        ≡ ok (decision_of engine intent context id (rs, s))
  unfolding make_decision decision_of
  decision_refused engine intent context id rs approved c e n a = ground arith
  decision_refused engine intent context id rs rejected c e n a =
      rw (c.id_fits, c.hash_fits, n, a) refl
  decision_refused engine intent context id rs error c e n a =
      rw (c.id_fits, c.hash_fits, n, a) refl

  -- The limit price's guard returns, and the decision's constructor accepts what it leaves.
  concluded :
      (engine : RiskEngine X) (intent : OrderIntent) (context : RiskContext X) (id : Text)
      (xs : List RiskRuleResult)
      → IsReadyCall engine intent context id
      → is_empty xs ≡ false
      → (o : List RiskRuleResult × RiskDecisionStatus) × (require_limit_price intent context xs
          ≡ ok o)
        × (make_decision (decision_of engine intent context id o)
            ≡ ok (decision_of engine intent context id o))
        × (is_approved o.1 ≡ (all_of (λ r. r.passed) xs && not (is_none intent.limit_price)))
  unfolding require_limit_price
  concluded engine intent context id xs c n =
      let same = decision_status-approved xs in
      elim (Bool-cases (all_of (λ r. r.passed) xs)) [
        | inr some_fail ↦ (
          (xs, decision_status xs),
          rw (same, some_fail) refl,
          decision_refused engine intent context id xs (decision_status xs) c (same ∙ some_fail) n
              some_fail,
          rw (same, some_fail) refl,
        )
        | inl all ↦ elim (Option-cases intent.limit_price) [
          | inl absent ↦
              let missing : RiskRuleResult =
                failed_result (str "RISK-ENGINE", str "1.0") context.evaluated_at
                  limit_price_missing_reason
                  (str "approved decision requires intent limit_price") in
              (
                (xs ++ missing ∷ [], rejected),
                rw
                    (
                      same,
                      all,
                      absent,
                      rule_error_result_lem (str "RISK-ENGINE", str "1.0") context
                          limit_price_missing_reason
                          (str "approved decision requires intent limit_price") refl refl refl refl,
                    )
                    refl,
                decision_refused engine intent context id (xs ++ missing ∷ []) rejected c refl
                    (is_empty-snoc xs missing) (all_of-snoc xs missing refl),
                rw (all, absent) refl,
              )
          | inr (p, given) ↦
              let granted = is_approved_inversion (decision_status xs) (same ∙ all) in
              (
                (xs, approved),
                rw (granted, given) refl,
                decision_approved engine intent context id xs p c given n all,
                rw (all, given) refl,
              )
        ]
      ]

  -- On an engine and a call that give no constructor a value out of its bounds (there are rules;
  -- their names, the exceptions', the configuration's hash and the snapshot's id fit; the time to
  -- live and the quantity are positive) `evaluate` returns a decision, whatever the rules do. It
  -- approves just when every rule returns a passed result and the intent has a limit price; it
  -- then approves the intent's own quantity and price, until the end of the time to live, and
  -- otherwise it approves nothing.
  pub evaluate_lem :
      (engine : RiskEngine X) (intent : OrderIntent) (context : RiskContext X) (id : Text)
      → IsReadyCall engine intent context id
      → (d : RiskDecision) × (evaluate engine intent context id ≡ ok d)
        × (is_approved d.status
            ≡ (all_of (passes intent context) engine.rules && not (is_none intent.limit_price)))
        × (d.intent_id ≡ intent.intent_id)
        × (d.correlation_id ≡ intent.correlation_id)
        × (d.evaluated_at ≡ context.evaluated_at)
        × (d.approved_quantity ≡ if_approved d.status (some intent.quantity))
        × (d.approved_limit_price ≡ if_approved d.status intent.limit_price)
        × (d.approval_expires_at
            ≡ if_approved d.status (expiry context.evaluated_at engine.approval_ttl))
  unfolding evaluate decision_of
  evaluate_lem engine intent context id c =
      let (xs, ran, passed, empty) = evaluate_rules_lem engine.rules intent context c.rules_ready in
      let (o, priced, made, verdict) =
        concluded engine intent context id xs c (empty ∙ c.has_rules) in
      let id_ok : validate_input_snapshot_id id ≡ ok tt = ground (arith, c.id_fits) in
      (
        decision_of engine intent context id o,
        rw (id_ok, ran, priced, made) refl,
        verdict ∙ ap (λ (b : Bool). b && not (is_none intent.limit_price)) passed,
        refl,
        refl,
        refl,
        refl,
        refl,
        refl,
      )
