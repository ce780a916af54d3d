-- ===== src/Risk/Types.antt =====
-- Canonical order intents and risk decisions (schemas/orders.py, schemas/risk.py), with the checks
-- of their constructors. Quantities and prices are not negative, and are numbers of a fixed
-- decimal unit.
use pmrp.Common.{ℕ, Bool, false, not, ◌||◌, Option, none, some, List, leb, nat_eqb, any_of, all_of}
pub use pmrp.Common.Fields.{is_bad_length, is_bad_optional, is_none, is_empty}
use pmrp.Common.Int.{ℤ}
use pmrp.Common.Text.{Text}
use pmrp.Common.Result.{Result, ok, ◌>>◌, raise_if}
use pmrp.Simulation.MarketData.{Side}

-- What the constructors, the engine and the factories raise, by message.
pub data RiskError : Type 0 where
  no_rules rule_id_empty rule_version_empty rule_repeated : RiskError
  approval_ttl_not_positive configuration_hash_empty : RiskError
  input_snapshot_id_empty input_snapshot_id_too_long : RiskError
  field_out_of_bounds : RiskError
  no_rule_results : RiskError
  approved_with_failed_rule approved_without_terms : RiskError
  not_approved_with_terms not_approved_without_failure : RiskError
  expires_too_early : RiskError
  decision_not_approved intent_mismatch correlation_mismatch terms_missing quantity_exceeded :
      RiskError
  exchange_empty exchange_too_long reference_empty reference_too_long : RiskError
  limit_price_missing post_only_market : RiskError
  approval_expiry_missing : RiskError
  reservation_id_empty reservation_id_too_long : RiskError
  quantity_not_positive notional_not_positive : RiskError
  active_with_release released_without_time released_too_early : RiskError
  currency_invalid : RiskError
  scope_id_missing : RiskError

pub data OrderType : Type 0 where
  limit market : OrderType

pub data TimeInForce : Type 0 where
  gtc ioc fok day gtd : TimeInForce

-- `OrderIntent`, without the fields that no code below reads.
pub record OrderIntent : Type 0 where
  pub intent_id : Text
  pub strategy_id : Text
  pub market_id : Text
  pub contract_id : Text
  pub outcome_id : Text
  pub side : Side
  pub quantity : ℕ
  pub limit_price : Option ℕ
  pub order_type : OrderType
  pub time_in_force : TimeInForce
  pub post_only : Bool
  pub reduce_only : Bool
  pub correlation_id : Text

pub record RiskRuleResult : Type 0 where
  pub rule_id : Text
  pub rule_version : Text
  pub passed : Bool
  pub reason_code : Text
  pub reason_text : Option Text
  pub observed_value : Option ℤ
  pub limit_value : Option ℤ
  pub unit : Option Text
  pub evaluated_at : ℕ

-- The constructor of `RiskRuleResult`.
unfoldable pub make_rule_result : RiskRuleResult → Result RiskError RiskRuleResult
make_rule_result r = do
  raise_if
      (is_bad_length 128 r.rule_id
        || is_bad_length 64 r.rule_version
        || is_bad_length 128 r.reason_code
        || is_bad_optional 1024 r.reason_text
        || is_bad_optional 64 r.unit)
      field_out_of_bounds
  ok r

pub data RiskDecisionStatus : Type 0 where
  approved rejected error : RiskDecisionStatus

pub record RiskDecision : Type 0 where
  pub risk_decision_id : Text
  pub intent_id : Text
  pub status : RiskDecisionStatus
  pub evaluated_at : ℕ
  pub input_snapshot_id : Text
  pub rule_results : List RiskRuleResult
  pub approved_quantity : Option ℕ
  pub approved_limit_price : Option ℕ
  pub approval_expires_at : Option ℕ
  pub configuration_hash : Text
  pub correlation_id : Text

-- `Field(gt=0)` on an optional quantity: whether it fails.
abbrev pub is_some_zero : Option ℕ → Bool
is_some_zero none = false
is_some_zero (some n) = nat_eqb n 0

-- The middle of `validate_decision_state`, by the status.
abbrev pub validate_terms : RiskDecision → RiskDecisionStatus → Result RiskError (Unit {0})
validate_terms d approved = do
  raise_if (any_of (λ r. not r.passed) d.rule_results) approved_with_failed_rule
  raise_if (is_none d.approved_quantity || is_none d.approved_limit_price) approved_without_terms
validate_terms d _ = do
  raise_if
      (not (is_none d.approved_quantity)
        || not (is_none d.approved_limit_price)
        || not (is_none d.approval_expires_at))
      not_approved_with_terms
  raise_if (all_of (λ r. r.passed) d.rule_results) not_approved_without_failure

-- `expires_at is not None and expires_at <= start`
abbrev pub expires_by : ℕ → Option ℕ → Bool
expires_by start none = false
expires_by start (some t) = leb t start

-- The constructor of `RiskDecision`: the bounds of its fields, then `validate_decision_state`.
unfoldable pub make_decision : RiskDecision → Result RiskError RiskDecision
make_decision d = do
  raise_if
      (is_bad_length 128 d.input_snapshot_id
        || is_some_zero d.approved_quantity
        || is_bad_length 128 d.configuration_hash)
      field_out_of_bounds
  raise_if (is_empty d.rule_results) no_rule_results
  validate_terms d d.status
  raise_if (expires_by d.evaluated_at d.approval_expires_at) expires_too_early
  ok d
