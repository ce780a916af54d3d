-- ===== src/Risk/Tests.antt =====
-- Two rules, a concrete intent, and the theorems of the risk component at them.
pub mod Rules
use pmrp.Common.{
  Option, ℕ, ◌*◌, ◌≤◌, ◌<◌, ◌≡◌, ◌↔◌, refl, Bool, true, false, not, ◌&&◌, none, some, List, [], ◌∷◌,
  arith, leb, all_of, any_of,
}
use pmrp.Common.Int.{pos}
use pmrp.Common.Text.{Text, str, text_eq}
use pmrp.Common.Result.{Result, ok, raise}
use pmrp.Simulation.MarketData.{buy}
use pmrp.Risk.Types.{
  RiskError, configuration_hash_empty, OrderIntent, limit, gtc, RiskRuleResult, RiskDecision,
  approved, is_none, make_decision, scope_id_missing,
}
use pmrp.Risk.Engine.{
  RiskContext, RiskRule, RiskEngine, returned, is_approved, if_approved, expiry, evaluate,
  evaluate_rules, rule_identity, decision_status, require_limit_price, decision_of, make_engine,
}
use pmrp.Risk.Engine.Configuration.{HasHash, AllDistinct, make_engine_iff}
use pmrp.Risk.Engine.Evaluation.{passes}
use pmrp.Risk.Engine.Decision.{IsReadyCall, evaluate_lem}
use pmrp.Risk.KillSwitches.{
  KillSwitchScope, market, strategy, KillSwitchState, Subject, ClearState, scope_eqb,
  clear_state_for_subject,
}
use pmrp.Risk.KillSwitches.Clear.{is_named, blocks, clear_state_lem}
use pmrp.Risk.Approvals.{
  References, ApprovedOrder, order_of, build_approved_order, make_references, make_approved_order,
  validate_approval_pair,
}
use pmrp.Risk.Approvals.Authority.{
  IsAuthorized, build_approved_order_lem, evaluate-build_approved_order,
}
use pmrp.Risk.Reservations.{
  ExchangeName, kalshi, CapitalReservation, reservation_of, build_capital_reservation,
  make_reservation, active,
}
use pmrp.Risk.Reservations.Cover.{build_capital_reservation_lem, reservation_covers_order}

abbrev intent : OrderIntent
intent = record {
  intent_id = str "intent_1";
  strategy_id = str "strat_1";
  market_id = str "mkt_1";
  contract_id = str "con_1";
  outcome_id = str "out_1";
  side = buy;
  quantity = 10;
  limit_price = some 45;
  order_type = limit;
  time_in_force = gtc;
  post_only = false;
  reduce_only = false;
  correlation_id = str "corr_1";
}

abbrev context : RiskContext ℕ
context = record { evaluated_at = 1000; snapshot = 12 }

abbrev result_of : Text → Bool → RiskRuleResult
result_of name ok_flag = record {
  rule_id = name;
  rule_version = str "1.0";
  passed = ok_flag;
  reason_code = str "CHECKED";
  reason_text = none;
  observed_value = none;
  limit_value = none;
  unit = none;
  evaluated_at = 1000;
}

-- The quantity is at most the snapshot.
abbrev limit_rule : RiskRule ℕ
limit_rule = record {
  rule_id = str "RISK-001";
  version = str "1.0";
  evaluate = λ i c. returned (result_of (str "RISK-001") (leb i.quantity c.snapshot));
}

abbrev price_rule : RiskRule ℕ
price_rule = record {
  rule_id = str "RISK-002";
  version = str "1.0";
  evaluate = λ i c. returned (result_of (str "RISK-002") true);
}

abbrev engine : RiskEngine ℕ
engine = record {
  rules = limit_rule ∷ price_rule ∷ [];
  configuration_hash = str "sha256:1";
  approval_ttl = some 500;
  risk_decision_id = λ i t s h rs. str "risk_1";
}

engine_ready : IsReadyCall engine intent context (str "snap_1")
engine_ready = record {
  has_rules = refl;
  rules_ready = (
    record { id_fits = refl; version_fits = refl; name_fits = λ name h. ground arith },
    (record { id_fits = refl; version_fits = refl; name_fits = λ name h. ground arith }, tt),
  );
  hash_fits = refl;
  ttl_positive = λ t h. ground (arith, h);
  id_fits = refl;
  quantity_positive = omega arith;
}

evaluate_lem_example :
    (d : RiskDecision) × (evaluate engine intent context (str "snap_1") ≡ ok d)
    × (is_approved d.status
        ≡ (all_of (passes intent context) engine.rules && not (is_none intent.limit_price)))
    × (d.intent_id ≡ intent.intent_id)
    × (d.correlation_id ≡ intent.correlation_id)
    × (d.evaluated_at ≡ context.evaluated_at)
    × (d.approved_quantity ≡ if_approved d.status (some intent.quantity))
    × (d.approved_limit_price ≡ if_approved d.status intent.limit_price)
    × (d.approval_expires_at
        ≡ if_approved d.status (expiry context.evaluated_at engine.approval_ttl))
evaluate_lem_example = evaluate_lem engine intent context (str "snap_1") engine_ready

-- The hash of two rules; other configurations are not supported.
abbrev rules_hash : List (RiskRule ℕ) → Option ℕ → Result RiskError Text
rules_hash (a ∷ b ∷ []) t = ok (str "sha256:1")
rules_hash _ t = raise configuration_hash_empty

make_engine_iff_example :
    (((e : RiskEngine ℕ) × (make_engine rules_hash
            (λ i t s h rs. str "risk_1")
            (limit_rule ∷ price_rule ∷ [])
            none
            (some (pos 500))
          ≡ ok e)
        × (e.rules ≡ limit_rule ∷ price_rule ∷ [])
        × HasHash rules_hash (limit_rule ∷ price_rule ∷ []) (some 500) none e.configuration_hash)
      ↔ ((false ≡ false)
          × AllDistinct (limit_rule ∷ price_rule ∷ [])
          × (true ≡ true)
          × ((h : Text) × HasHash rules_hash (limit_rule ∷ price_rule ∷ []) (some 500) none h)))
make_engine_iff_example =
    make_engine_iff rules_hash (λ i t s h rs. str "risk_1") (limit_rule ∷ price_rule ∷ []) none
      (some (pos 500))

abbrev decision : RiskDecision
decision = record {
  risk_decision_id = str "risk_1";
  intent_id = str "intent_1";
  status = approved;
  evaluated_at = 1000;
  input_snapshot_id = str "snap_1";
  rule_results = result_of (str "RISK-001") true ∷ result_of (str "RISK-002") true ∷ [];
  approved_quantity = some 10;
  approved_limit_price = some 45;
  approval_expires_at = some 1500;
  configuration_hash = str "sha256:1";
  correlation_id = str "corr_1";
}

decided : evaluate engine intent context (str "snap_1") ≡ ok decision
unfolding evaluate evaluate_rules rule_identity decision_status require_limit_price decision_of
    make_decision
decided = refl

abbrev references : OrderIntent → RiskDecision → Text → Text → References
references i d exchange account = record {
  order_id = str "order_1";
  client_order_id = str "pmrp-1";
  idempotency_key = str "approved-order-1";
}

abbrev order : ApprovedOrder
order =
    order_of intent decision (str "kalshi") (str "acct_1") (10, 45)
      (references intent decision (str "kalshi") (str "acct_1"))

order_built :
    build_approved_order references intent decision (str "kalshi") (str "acct_1") ≡ ok order
unfolding build_approved_order validate_approval_pair make_references make_approved_order
order_built = refl

build_approved_order_lem_example :
    (p : ℕ) × IsAuthorized intent decision order.quantity p
    × (order.limit_price ≡ some p)
    × (1 ≤ order.quantity)
    × (order.intent_id ≡ intent.intent_id)
    × (order.risk_decision_id ≡ decision.risk_decision_id)
    × (order.market_id ≡ intent.market_id)
    × (order.contract_id ≡ intent.contract_id)
    × (order.outcome_id ≡ intent.outcome_id)
    × (order.side ≡ intent.side)
    × (order.approval_expires_at ≡ decision.approval_expires_at)
build_approved_order_lem_example =
    build_approved_order_lem references intent decision (str "kalshi") (str "acct_1") order
      order_built

evaluate-build_approved_order_example :
    (o : ApprovedOrder) × (build_approved_order references intent decision
        (str "kalshi")
        (str "acct_1")
      ≡ ok o)
    × (o.quantity ≡ intent.quantity)
    × (o.limit_price ≡ intent.limit_price)
    × (o.approval_expires_at ≡ expiry context.evaluated_at engine.approval_ttl)
evaluate-build_approved_order_example =
    evaluate-build_approved_order engine intent context (str "snap_1") references decision
      (str "kalshi") (str "acct_1") engine_ready decided refl refl refl refl refl

abbrev reservation_id : OrderIntent → RiskDecision → ExchangeName → Text → Text → Text
reservation_id i d exchange account currency = str "reserve_1"

abbrev reservation : CapitalReservation
reservation =
    reservation_of intent decision kalshi (str "acct_1") (str "USD") (10, 45) 1500 (str "reserve_1")

reservation_built :
    build_capital_reservation reservation_id intent decision kalshi (str "acct_1") (str "USD")
    ≡ ok reservation
unfolding build_capital_reservation validate_approval_pair make_reservation
reservation_built = refl

build_capital_reservation_lem_example :
    (p : ℕ) × IsAuthorized intent decision reservation.quantity p
    × (reservation.notional ≡ reservation.quantity * p)
    × (1 ≤ reservation.notional)
    × (reservation.status ≡ active)
    × (decision.approval_expires_at ≡ some reservation.expires_at)
    × (reservation.created_at < reservation.expires_at)
    × (reservation.intent_id ≡ intent.intent_id)
    × (reservation.market_id ≡ intent.market_id)
build_capital_reservation_lem_example =
    build_capital_reservation_lem reservation_id intent decision kalshi (str "acct_1") (str "USD")
      reservation reservation_built

reservation_covers_order_example :
    (p : ℕ) × (order.limit_price ≡ some p)
    × (reservation.quantity ≡ order.quantity)
    × (reservation.notional ≡ order.quantity * p)
    × (order.approval_expires_at ≡ some reservation.expires_at)
    × (reservation.intent_id ≡ order.intent_id)
    × (reservation.market_id ≡ order.market_id)
reservation_covers_order_example =
    reservation_covers_order references reservation_id intent decision (str "kalshi") kalshi
      (str "acct_1") (str "USD") order reservation order_built reservation_built

abbrev subject : Subject
subject = record {
  strategy_id = str "strat_1";
  market_id = str "mkt_1";
  exchange_id = none;
  account_id = none;
  execution_gateway_id = none;
}

abbrev switches : List KillSwitchState
switches =
    record {
      kill_switch_id = str "ks_1";
      scope = market;
      scope_id = some (str "mkt_1");
      active = true;
    }
    ∷ record { kill_switch_id = str "ks_2"; scope = strategy; scope_id = none; active = false }
    ∷ []

clear_state_lem_example :
    ((all_of is_named switches ≡ true)
      → (c : ClearState) × (clear_state_for_subject switches subject 7 ≡ ok c)
        × (c.clear ≡ not (any_of (blocks subject) switches))
        × ((x : KillSwitchScope)
            → any_of (scope_eqb x) c.active_scopes
              ≡ any_of (λ k. blocks subject k && scope_eqb x k.scope) switches))
    × (all_of is_named switches ≡ false
        → clear_state_for_subject switches subject 7 ≡ raise scope_id_missing)
clear_state_lem_example = clear_state_lem switches subject 7
