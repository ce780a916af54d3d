-- ===== src/Risk/Engine.antt =====
-- The risk engine (risk/engine.py). Rules are parameters: each is a function of the intent and the
-- context, whose call may raise. The canonical hashes are parameters too; that of the rules'
-- configuration raises for parameters that it does not support.
pub mod Configuration
pub mod Evaluation
pub mod Decision
use pmrp.Common.{
  ℕ, zero, suc, ◌+◌, Bool, true, false, not, ◌&&◌, ◌||◌, Option, none, some, List, [], ◌∷◌, ◌++◌,
  ltb, length, any_of, all_of, if◌then◌else◌,
}
use pmrp.Common.Equality.{◌==◌}
use pmrp.Common.Int.{ℤ, pos, negsuc}
use pmrp.Common.Text.{Text, str, text_eq}
use pmrp.Common.Result.{Result, ok, raise, ◌>>=◌, ◌>>◌, raise_if}
use pmrp.Risk.Types.{
  RiskError, no_rules, rule_id_empty, rule_version_empty, rule_repeated, approval_ttl_not_positive,
  configuration_hash_empty, input_snapshot_id_empty, input_snapshot_id_too_long, OrderIntent,
  RiskRuleResult, make_rule_result, RiskDecisionStatus, approved, rejected, error, RiskDecision,
  make_decision, is_none, is_empty,
}

-- The context: the time that the engine reads, and the snapshot that the rules read.
pub record RiskContext (X : Type 0) : Type 0 where
  pub evaluated_at : ℕ
  pub snapshot : X

-- How a call of a rule ends: an exception of the class so named, a value of another type, or a
-- result.
pub data RuleOutcome : Type 0 where
  raised : Text → RuleOutcome
  returned_other : RuleOutcome
  returned : RiskRuleResult → RuleOutcome

pub record RiskRule (X : Type 0) : Type 0 where
  pub rule_id : Text
  pub version : Text
  pub evaluate : OrderIntent → RiskContext X → RuleOutcome

pub record RiskEngine (X : Type 0) : Type 0 where
  pub rules : List (RiskRule X)
  pub configuration_hash : Text
  pub approval_ttl : Option ℕ
  pub risk_decision_id : OrderIntent → ℕ → Text → Text → List RiskRuleResult → Text

abbrev pub rule_error_reason : Text
rule_error_reason = str "RISK_ENGINE_RULE_ERROR"

abbrev pub rule_result_invalid_reason : Text
rule_result_invalid_reason = str "RISK_ENGINE_RULE_RESULT_INVALID"

abbrev pub limit_price_missing_reason : Text
limit_price_missing_reason = str "RISK_ENGINE_APPROVAL_LIMIT_PRICE_MISSING"

abbrev pub same_identity : Text × Text → Text × Text → Bool
same_identity a b = a.0 == b.0 && a.1 == b.1

-- `approval_ttl`, which is a positive duration if it is given.
abbrev pub positive_ttl : Option ℤ → Result RiskError (Option ℕ)
positive_ttl none = ok none
positive_ttl (some (pos zero)) = raise approval_ttl_not_positive
positive_ttl (some (pos (suc n))) = ok (some (suc n))
positive_ttl (some (negsuc n)) = raise approval_ttl_not_positive

-- `_validate_input_snapshot_id`
abbrev pub validate_input_snapshot_id : Text → Result RiskError (Unit {0})
validate_input_snapshot_id s = do
  raise_if (is_empty s) input_snapshot_id_empty
  raise_if (ltb 128 (length s)) input_snapshot_id_too_long

abbrev pub is_engine_error : RiskRuleResult → Bool
is_engine_error r =
    not r.passed
    && (r.reason_code == rule_error_reason || r.reason_code == rule_result_invalid_reason)

-- `_decision_status`
unfoldable pub decision_status : List RiskRuleResult → RiskDecisionStatus
decision_status rs =
    if any_of is_engine_error rs
    then error
    else if all_of (λ r. r.passed) rs
    then approved
    else rejected

abbrev pub is_approved : RiskDecisionStatus → Bool
is_approved approved = true
is_approved _ = false

abbrev pub expiry : ℕ → Option ℕ → Option ℕ
expiry start none = none
expiry start (some ttl) = some (start + ttl)

abbrev pub if_approved {ℓ} : {A : Type ℓ} → RiskDecisionStatus → Option A → Option A
if_approved approved o = o
if_approved _ o = none

-- The result that `_rule_error_result` passes to the constructor.
abbrev pub failed_result : Text × Text → ℕ → Text → Text → RiskRuleResult
failed_result key evaluated_at reason_code reason_text = record {
  rule_id = key.0;
  rule_version = key.1;
  passed = false;
  reason_code = reason_code;
  reason_text = some reason_text;
  observed_value = none;
  limit_value = none;
  unit = none;
  evaluated_at = evaluated_at;
}

module _ {X : Type 0} where
  -- `_rule_identity`
  unfoldable pub rule_identity : RiskRule X → Result RiskError (Text × Text)
  rule_identity r = do
    raise_if (is_empty r.rule_id) rule_id_empty
    raise_if (is_empty r.version) rule_version_empty
    ok (r.rule_id, r.version)

  -- The loop of `_freeze_rules`, with the identities seen.
  abbrev pub check_rules : List (Text × Text) → List (RiskRule X) → Result RiskError (Unit {0})
  check_rules seen [] = ok tt
  check_rules seen (r ∷ rs) = rule_identity r >>= λ key.
      raise_if (any_of (same_identity key) seen) rule_repeated >> check_rules (key ∷ seen) rs

  -- `_freeze_rules`
  unfoldable pub freeze_rules : List (RiskRule X) → Result RiskError (List (RiskRule X))
  freeze_rules rs = do raise_if (is_empty rs) no_rules; check_rules [] rs; ok rs

  -- The configuration's hash: the one given, or that of the rules.
  abbrev pub configured_hash :
      (List (RiskRule X) → Option ℕ → Result RiskError Text)
      → List (RiskRule X)
      → Option ℕ
      → Option Text
      → Result RiskError Text
  configured_hash hash rs ttl none = hash rs ttl
  configured_hash hash rs ttl (some []) = raise configuration_hash_empty
  configured_hash hash rs ttl (some (c ∷ s)) = ok (c ∷ s)

  -- `RiskEngine.__post_init__`
  unfoldable pub make_engine :
      (List (RiskRule X) → Option ℕ → Result RiskError Text)
      → (OrderIntent → ℕ → Text → Text → List RiskRuleResult → Text)
      → List (RiskRule X)
      → Option Text
      → Option ℤ
      → Result RiskError (RiskEngine X)
  make_engine hash generate rs configuration_hash approval_ttl = do
    frozen ← freeze_rules rs
    ttl ← positive_ttl approval_ttl
    digest ← configured_hash hash frozen ttl configuration_hash
    ok (record {
      rules = frozen;
      configuration_hash = digest;
      approval_ttl = ttl;
      risk_decision_id = generate;
    })

  -- `_rule_error_result`
  abbrev pub rule_error_result :
      Text × Text → RiskContext X → Text → Text → Result RiskError RiskRuleResult
  rule_error_result key context reason_code reason_text =
      make_rule_result (failed_result key context.evaluated_at reason_code reason_text)

  -- `_evaluate_rules`: the loop ends at the first rule that raises or returns no result.
  unfoldable pub evaluate_rules :
      List (RiskRule X) → OrderIntent → RiskContext X → Result RiskError (List RiskRuleResult)
  evaluate_rules [] intent context = ok []
  evaluate_rules (r ∷ rs) intent context =
      let rest = evaluate_rules rs intent context in
      rule_identity r >>= λ key. elim (r.evaluate intent context) [
        | raised name ↦ do
          x ←
              rule_error_result key context rule_error_reason
                (str "rule evaluation raised " ++ name)
          ok (x ∷ [])
        | returned_other ↦ do
          x ←
              rule_error_result key context rule_result_invalid_reason
                (str "rule returned non-RiskRuleResult")
          ok (x ∷ [])
        | returned x ↦ rest >>= λ xs. ok (x ∷ xs)
      ]

  -- The approval without a limit price is turned into a rejection, with a result of the engine.
  unfoldable pub require_limit_price :
      OrderIntent
      → RiskContext X
      → List RiskRuleResult
      → Result RiskError (List RiskRuleResult × RiskDecisionStatus)
  require_limit_price intent context rs =
      let status = decision_status rs in
      let extended =
        (rule_error_result (str "RISK-ENGINE", str "1.0") context limit_price_missing_reason
            (str "approved decision requires intent limit_price")
          >>= λ x. ok (rs ++ x ∷ [], rejected)) in
      if is_approved status && is_none intent.limit_price then extended else ok (rs, status)

  -- The decision that `evaluate` builds from the results and their status.
  unfoldable pub decision_of :
      RiskEngine X
      → OrderIntent
      → RiskContext X
      → Text
      → List RiskRuleResult × RiskDecisionStatus
      → RiskDecision
  decision_of engine intent context id (rs, status) = record {
    risk_decision_id =
        engine.risk_decision_id intent context.evaluated_at id engine.configuration_hash rs;
    intent_id = intent.intent_id;
    status = status;
    evaluated_at = context.evaluated_at;
    input_snapshot_id = id;
    rule_results = rs;
    approved_quantity = if_approved status (some intent.quantity);
    approved_limit_price = if_approved status intent.limit_price;
    approval_expires_at = if_approved status (expiry context.evaluated_at engine.approval_ttl);
    configuration_hash = engine.configuration_hash;
    correlation_id = intent.correlation_id;
  }

  -- `RiskEngine.evaluate`
  unfoldable pub evaluate :
      RiskEngine X → OrderIntent → RiskContext X → Text → Result RiskError RiskDecision
  evaluate engine intent context id = do
    validate_input_snapshot_id id
    rs ← evaluate_rules engine.rules intent context
    outcome ← require_limit_price intent context rs
    make_decision (decision_of engine intent context id outcome)
