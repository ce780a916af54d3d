-- ===== src/Risk/Engine/Evaluation.antt =====
-- What the loop over the rules returns (`_evaluate_rules`), and the status of its results.
use pmrp.Common.{
  ◌≤◌, ◌≡◌, refl, ◌⊎◌, inl, inr, Bool, true, false, List, [], ◌∷◌, ◌++◌, arith, length, any_of,
  all_of, All,
}
use pmrp.Common.Text.{Text, str, text_eq}
use pmrp.Common.Result.{ok}
use pmrp.Risk.Types.{OrderIntent, RiskRuleResult, make_rule_result, is_bad_length, is_empty}
use pmrp.Risk.Engine.{
  RiskContext, RiskRule, RuleOutcome, raised, returned_other, returned, rule_identity,
  failed_result, rule_error_result, rule_error_reason, rule_result_invalid_reason, evaluate_rules,
  decision_status, is_engine_error, is_approved,
}

abbrev pub is_pass : RuleOutcome → Bool
is_pass (raised name) = false
is_pass returned_other = false
is_pass (returned x) = x.passed

outcome_cases :
    (o : RuleOutcome)
    → ((name : Text) × (o ≡ raised name))
      ⊎ (o ≡ returned_other)
      ⊎ ((x : RiskRuleResult) × (o ≡ returned x))
outcome_cases (raised name) = inl (name, refl)
outcome_cases returned_other = inr (inl refl)
outcome_cases (returned x) = inr (inr (x, refl))

raised_text :
    (name : Text)
    → length name ≤ 1000
    → is_bad_length 1024 (str "rule evaluation raised " ++ name) ≡ false
raised_text name h = ground arith

-- Results that all pass give an approval, others none.
pub decision_status-approved :
    (xs : List RiskRuleResult) → is_approved (decision_status xs) ≡ all_of (λ x. x.passed) xs
unfolding decision_status
decision_status-approved xs = ground (arith, passed_no_error xs)
  where
    passed_no_error :
        (xs : List RiskRuleResult)
        → all_of (λ x. x.passed) xs ≡ true
        → any_of is_engine_error xs ≡ false
    passed_no_error [] h = refl
    passed_no_error (x ∷ xs) h = ground (arith, passed_no_error xs)

module _ {X : Type 0} where
  -- The names of a rule, and of the exceptions that it raises, fit in a result.
  pub record IsReady (intent : OrderIntent) (context : RiskContext X) (r : RiskRule X)
      : Type 0 where
    pub id_fits : is_bad_length 128 r.rule_id ≡ false
    pub version_fits : is_bad_length 64 r.version ≡ false
    pub name_fits : (name : Text) → r.evaluate intent context ≡ raised name → length name ≤ 1000

  -- Whether a rule returns a result, and passes.
  abbrev pub passes : OrderIntent → RiskContext X → RiskRule X → Bool
  passes intent context r = is_pass (r.evaluate intent context)

  rule_identity_fits :
      (r : RiskRule X)
      → is_bad_length 128 r.rule_id ≡ false
      → is_bad_length 64 r.version ≡ false
      → rule_identity r ≡ ok (r.rule_id, r.version)
  unfolding rule_identity
  rule_identity_fits r i v = ground arith

  -- A result that the engine makes up fits.
  pub rule_error_result_lem :
      (key : Text × Text) (context : RiskContext X) (code text : Text)
      → is_bad_length 128 key.0 ≡ false
      → is_bad_length 64 key.1 ≡ false
      → is_bad_length 128 code ≡ false
      → is_bad_length 1024 text ≡ false
      → rule_error_result key context code text
        ≡ ok (failed_result key context.evaluated_at code text)
  unfolding make_rule_result
  rule_error_result_lem key context code text a b c d = rw (a, b, c, d) refl

  -- The loop returns from rules that are ready; its results are as many as none only without
  -- rules, and all pass just when every rule does.
  pub evaluate_rules_lem :
      (rs : List (RiskRule X)) (intent : OrderIntent) (context : RiskContext X)
      → All (IsReady intent context) rs
      → (xs : List RiskRuleResult) × (evaluate_rules rs intent context ≡ ok xs)
        × (all_of (λ x. x.passed) xs ≡ all_of (passes intent context) rs)
        × (is_empty xs ≡ is_empty rs)
  unfolding evaluate_rules
  evaluate_rules_lem [] intent context h = ([], refl, refl, refl)
  evaluate_rules_lem (r ∷ rs) intent context (h, hs) =
      let (xs, e, p, n) = evaluate_rules_lem rs intent context hs in
      let key = rule_identity_fits r h.id_fits h.version_fits in
      elim (outcome_cases (r.evaluate intent context)) [
        | inl (name, o) ↦ (
          failed_result (r.rule_id, r.version) context.evaluated_at rule_error_reason
                (str "rule evaluation raised " ++ name)
              ∷ [],
          rw
              (
                key,
                o,
                rule_error_result_lem (r.rule_id, r.version) context rule_error_reason
                    (str "rule evaluation raised " ++ name) h.id_fits h.version_fits refl
                    (raised_text name (h.name_fits name o)),
              )
              refl,
          rw o refl,
          refl,
        )
        | inr (inl o) ↦ (
          failed_result (r.rule_id, r.version) context.evaluated_at rule_result_invalid_reason
                (str "rule returned non-RiskRuleResult")
              ∷ [],
          rw
              (
                key,
                o,
                rule_error_result_lem (r.rule_id, r.version) context rule_result_invalid_reason
                    (str "rule returned non-RiskRuleResult") h.id_fits h.version_fits refl refl,
              )
              refl,
          rw o refl,
          refl,
        )
        | inr (inr (x, o)) ↦ (x ∷ xs, rw (key, o, e) refl, rw (o, p) refl, refl)
      ]
