-- ===== src/Risk/Approvals.antt =====
-- The order that an approved decision authorizes (risk/approvals.py). The generator of its
-- references is a parameter: the three texts that it proposes.
pub mod Authority
use pmrp.Common.{
  ℕ, Bool, true, false, not, ◌&&◌, ◌||◌, Option, none, some, List, [], ◌∷◌, ltb, nat_eqb, length,
}
use pmrp.Common.Equality.{◌==◌}
use pmrp.Common.Text.{Text, text_eq}
use pmrp.Common.Result.{Result, ok, raise, ◌>>=◌, ◌>>◌, raise_if}
use pmrp.Simulation.MarketData.{Side}
use pmrp.Risk.Types.{
  RiskError, decision_not_approved, intent_mismatch, correlation_mismatch, terms_missing,
  quantity_exceeded, exchange_empty, exchange_too_long, reference_empty, reference_too_long,
  limit_price_missing, post_only_market, expires_too_early, field_out_of_bounds, is_bad_length,
  is_none, is_empty, OrderType, limit, market, TimeInForce, OrderIntent, RiskDecision,
  RiskDecisionStatus, expires_by,
}
use pmrp.Risk.Engine.{is_approved}

-- `ApprovedOrderReferences`
pub record References : Type 0 where
  pub order_id : Text
  pub client_order_id : Text
  pub idempotency_key : Text

-- `_validate_generated_reference`
abbrev pub validate_reference : Text → Result RiskError (Unit {0})
validate_reference s = do
  raise_if (is_empty s) reference_empty
  raise_if (ltb 256 (length s)) reference_too_long

-- `ApprovedOrderReferences.__post_init__`
unfoldable pub make_references : References → Result RiskError References
make_references r = do
  validate_reference r.client_order_id
  validate_reference r.idempotency_key
  ok r

pub record ApprovedOrder : Type 0 where
  pub order_id : Text
  pub intent_id : Text
  pub strategy_id : Text
  pub risk_decision_id : Text
  pub exchange : Text
  pub account_id : Text
  pub market_id : Text
  pub contract_id : Text
  pub outcome_id : Text
  pub side : Side
  pub quantity : ℕ
  pub limit_price : Option ℕ
  pub order_type : OrderType
  pub time_in_force : TimeInForce
  pub post_only : Bool
  pub reduce_only : Bool
  pub approved_at : ℕ
  pub approval_expires_at : Option ℕ
  pub client_order_id : Text
  pub idempotency_key : Text
  pub correlation_id : Text

abbrev pub is_limit : OrderType → Bool
is_limit limit = true
is_limit market = false

-- `_validate_order_pricing`
abbrev pub validate_order_pricing : OrderType → Option ℕ → Bool → Result RiskError (Unit {0})
validate_order_pricing order_type limit_price post_only = do
  raise_if (is_limit order_type && is_none limit_price) limit_price_missing
  raise_if (not (is_limit order_type) && post_only) post_only_market

-- The constructor of `ApprovedOrder`.
unfoldable pub make_approved_order : ApprovedOrder → Result RiskError ApprovedOrder
make_approved_order o = do
  raise_if
      (is_bad_length 64 o.exchange
        || nat_eqb o.quantity 0
        || is_bad_length 256 o.client_order_id
        || is_bad_length 256 o.idempotency_key)
      field_out_of_bounds
  validate_order_pricing o.order_type o.limit_price o.post_only
  raise_if (expires_by o.approved_at o.approval_expires_at) expires_too_early
  ok o

-- `decision.approved_quantity > intent.quantity`, of a quantity that is present.
abbrev pub exceeds : Option ℕ → ℕ → Bool
exceeds none n = false
exceeds (some q) n = ltb n q

-- `_validate_approval_pair`, and the same checks in `_validate_reservation_pair`.
unfoldable pub validate_approval_pair : OrderIntent → RiskDecision → Result RiskError (Unit {0})
validate_approval_pair i d = do
  raise_if (not (is_approved d.status)) decision_not_approved
  raise_if (not (d.intent_id == i.intent_id)) intent_mismatch
  raise_if (not (d.correlation_id == i.correlation_id)) correlation_mismatch
  raise_if (is_none d.approved_quantity || is_none d.approved_limit_price) terms_missing
  raise_if (exceeds d.approved_quantity i.quantity) quantity_exceeded

-- `_validate_exchange`
abbrev pub validate_exchange : Text → Result RiskError (Unit {0})
validate_exchange s = do
  raise_if (is_empty s) exchange_empty
  raise_if (ltb 64 (length s)) exchange_too_long

-- `_approved_order_values`, and `_approved_reservation_values`.
abbrev pub approved_values : Option ℕ → Option ℕ → Result RiskError (ℕ × ℕ)
approved_values none p = raise terms_missing
approved_values (some q) none = raise terms_missing
approved_values (some q) (some p) = ok (q, p)

-- The order that `build` passes to the constructor.
abbrev pub order_of : OrderIntent → RiskDecision → Text → Text → ℕ × ℕ → References → ApprovedOrder
order_of i d exchange account (quantity, price) references = record {
  order_id = references.order_id;
  intent_id = i.intent_id;
  strategy_id = i.strategy_id;
  risk_decision_id = d.risk_decision_id;
  exchange = exchange;
  account_id = account;
  market_id = i.market_id;
  contract_id = i.contract_id;
  outcome_id = i.outcome_id;
  side = i.side;
  quantity = quantity;
  limit_price = some price;
  order_type = i.order_type;
  time_in_force = i.time_in_force;
  post_only = i.post_only;
  reduce_only = i.reduce_only;
  approved_at = d.evaluated_at;
  approval_expires_at = d.approval_expires_at;
  client_order_id = references.client_order_id;
  idempotency_key = references.idempotency_key;
  correlation_id = i.correlation_id;
}

-- `ApprovedOrderFactory.build`
unfoldable pub build_approved_order :
    (OrderIntent → RiskDecision → Text → Text → References)
    → OrderIntent
    → RiskDecision
    → Text
    → Text
    → Result RiskError ApprovedOrder
build_approved_order generate i d exchange account = do
  validate_approval_pair i d
  validate_exchange exchange
  values ← approved_values d.approved_quantity d.approved_limit_price
  references ← make_references (generate i d exchange account)
  make_approved_order (order_of i d exchange account values references)
