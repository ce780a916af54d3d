-- ===== src/Risk/Rules.antt =====
-- Four of the risk rules (src/pmrp/risk/rules): the order's price, its quantity, the market's position
-- and the kill switches, over the tables of the context that they read. The Decimal of a duration in
-- milliseconds, a quotient, and the Decimal 1 in the fixed unit are parameters.
pub mod Conditions
pub mod Approval
use pmrp.Common.{
  ℕ, ◌+◌, ◌-◌, ◌*◌, ◌%◌, Bool, true, false, not, ◌&&◌, ◌||◌, Option, none, some, List, [], ◌∷◌, ltb,
  nat_eqb, length, if◌then◌else◌,
}
use pmrp.Common.Fields.{is_empty}
use pmrp.Common.Int.{ℤ, pos, ◌+ℤ◌, neg_ℤ, abs_ℤ}
use pmrp.Common.Text.{Text, str}
use pmrp.Common.Result.{Result, ok, raise}
use pmrp.Simulation.MarketData.{Side, buy, sell}
use pmrp.Risk.Types.{RiskError, OrderIntent, RiskRuleResult, make_rule_result}
use pmrp.Risk.Engine.{RiskContext, RuleOutcome, raised, returned, RiskRule}

-- `RiskPriceBoundsState`, with a tick that is positive if there is one.
pub record PriceBounds : Type 0 where
  pub min_price : ℕ
  pub max_price : ℕ
  pub observed_at : ℕ
  pub tick_size : Option ℕ

-- `RiskQuantityLimitsState`, with a positive increment.
pub record QuantityLimits : Type 0 where
  pub min_quantity : ℕ
  pub max_quantity : ℕ
  pub quantity_increment : ℕ
  pub observed_at : ℕ

-- `RiskMarketPositionState`
pub record MarketPosition : Type 0 where
  pub current_position : ℤ
  pub max_position : ℕ
  pub observed_at : ℕ
  pub open_order_position_delta : ℤ
  pub reserved_position_delta : ℤ

-- `effective_position`
abbrev pub effective_position : MarketPosition → ℤ
effective_position s =
    s.current_position +ℤ s.open_order_position_delta +ℤ s.reserved_position_delta

-- `RiskKillSwitchClearState`; a scope is its name.
pub record KillSwitchState : Type 0 where
  pub clear : Bool
  pub observed_at : ℕ
  pub active_scopes : List Text

-- The tables of `RiskContext` that the rules below look up.
pub record Snapshot : Type 0 where
  pub price_bounds : Text → Option PriceBounds
  pub quantity_limits : Text → Option QuantityLimits
  pub market_positions : Text → Option MarketPosition
  pub kill_switch_clear : Option KillSwitchState

-- What a call that builds a result does.
abbrev pub outcome_of : Result RiskError RiskRuleResult → RuleOutcome
outcome_of (ok r) = returned r
outcome_of (raise e) = raised (str "ValidationError")

-- `_result`
unfoldable pub rule_outcome : Text → Bool → Text → Option ℤ → Option ℤ → Text → ℕ → RuleOutcome
rule_outcome id passed reason observed limit unit now = outcome_of (
    make_rule_result (record {
      rule_id = id;
      rule_version = str "1.0";
      passed = passed;
      reason_code = reason;
      reason_text = none;
      observed_value = observed;
      limit_value = limit;
      unit = some unit;
      evaluated_at = now;
    }))

-- `if age_result is not None: return age_result`
abbrev pub or_else : Option RuleOutcome → RuleOutcome → RuleOutcome
or_else none o = o
or_else (some a) o = a

-- `_signed_quantity`
abbrev pub signed_quantity : OrderIntent → ℤ
signed_quantity intent = elim intent.side [
  | buy ↦ pos intent.quantity
  | sell ↦ neg_ℤ (pos intent.quantity)
]

-- `tick_size is not None and (price - min_price) % tick_size != 0`
abbrev pub is_off_tick : PriceBounds → ℕ → Option ℕ → Bool
is_off_tick s price none = false
is_off_tick s price (some tick) = not (nat_eqb ((price - s.min_price) % tick) 0)

abbrev pub tick_value : Option ℕ → Option ℤ
tick_value none = none
tick_value (some tick) = some (pos tick)

module _ (milliseconds : ℕ → ℤ) (one : ℕ) where
  -- `_state_age_result`, which each rule has with its own reasons.
  abbrev pub age_outcome : Text → ℕ → Text → Text → ℕ → ℕ → Option RuleOutcome
  age_outcome id max_age future stale now observed =
      if ltb now observed
      then some (
          rule_outcome id false future (some (milliseconds (observed - now))) (some (pos 0))
            (str "milliseconds") now)
      else if ltb max_age (now - observed)
      then some (
          rule_outcome id false stale (some (milliseconds (now - observed)))
            (some (milliseconds max_age)) (str "milliseconds") now)
      else none

  -- `OrderPriceValidRule.evaluate`, after the age.
  abbrev pub check_price : ℕ → PriceBounds → ℕ → RuleOutcome
  check_price price s now =
      let v = some (pos price) in
      let id = str "RISK-006" in
      if ltb price s.min_price
      then rule_outcome id false (str "RISK_ORDER_PRICE_BELOW_MIN") v (some (pos s.min_price))
          (str "min_price") now
      else if ltb s.max_price price
      then rule_outcome id false (str "RISK_ORDER_PRICE_ABOVE_MAX") v (some (pos s.max_price))
          (str "max_price") now
      else if is_off_tick s price s.tick_size
      then rule_outcome id false (str "RISK_ORDER_PRICE_OFF_TICK") v (tick_value s.tick_size)
          (str "tick_size") now
      else rule_outcome id true (str "RISK_ORDER_PRICE_VALID") v (some (pos s.max_price))
          (str "price") now

  -- `OrderPriceValidRule.evaluate` of an intent with a price.
  abbrev pub evaluate_price : ℕ → ℕ → ℕ → Option PriceBounds → RuleOutcome
  evaluate_price max_age now price none =
      rule_outcome (str "RISK-006") false (str "RISK_ORDER_PRICE_BOUNDS_MISSING") (some (pos price))
        none (str "price") now
  evaluate_price max_age now price (some s) =
      or_else
        (age_outcome (str "RISK-006") max_age (str "RISK_ORDER_PRICE_BOUNDS_FUTURE")
          (str "RISK_ORDER_PRICE_BOUNDS_STALE") now s.observed_at)
        (check_price price s now)

  -- `OrderPriceValidRule`
  unfoldable pub order_price_rule : ℕ → RiskRule Snapshot
  order_price_rule max_age = record {
    rule_id = str "RISK-006";
    version = str "1.0";
    evaluate = λ intent context. elim intent.limit_price [
      | none ↦
          rule_outcome (str "RISK-006") true (str "RISK_ORDER_PRICE_NOT_REQUIRED") none none
            (str "price") context.evaluated_at
      | some price ↦
          evaluate_price max_age context.evaluated_at price
            (context.snapshot.price_bounds intent.market_id)
    ];
  }

  -- `OrderQuantityLimitRule.evaluate`, after the age.
  abbrev pub check_quantity : OrderIntent → QuantityLimits → ℕ → RuleOutcome
  check_quantity intent s now =
      let q = intent.quantity in
      let v = some (pos q) in
      let id = str "RISK-007" in
      if ltb q s.min_quantity
      then rule_outcome id false (str "RISK_ORDER_QUANTITY_BELOW_MIN") v (some (pos s.min_quantity))
          (str "min_quantity") now
      else if ltb s.max_quantity q
      then rule_outcome id false (str "RISK_ORDER_QUANTITY_ABOVE_MAX") v (some (pos s.max_quantity))
          (str "max_quantity") now
      else if not (nat_eqb ((q - s.min_quantity) % s.quantity_increment) 0)
      then rule_outcome id false (str "RISK_ORDER_QUANTITY_OFF_INCREMENT") v
          (some (pos s.quantity_increment)) (str "quantity_increment") now
      else rule_outcome id true (str "RISK_ORDER_QUANTITY_VALID") v (some (pos s.max_quantity))
          (str "quantity") now

  -- `OrderQuantityLimitRule`
  unfoldable pub order_quantity_rule : ℕ → RiskRule Snapshot
  order_quantity_rule max_age = record {
    rule_id = str "RISK-007";
    version = str "1.0";
    evaluate = λ intent context. elim (context.snapshot.quantity_limits intent.contract_id) [
      | none ↦
          rule_outcome (str "RISK-007") false (str "RISK_ORDER_QUANTITY_LIMITS_MISSING")
            (some (pos intent.quantity)) none (str "quantity") context.evaluated_at
      | some s ↦
          or_else
            (age_outcome (str "RISK-007") max_age (str "RISK_ORDER_QUANTITY_LIMITS_FUTURE")
              (str "RISK_ORDER_QUANTITY_LIMITS_STALE") context.evaluated_at s.observed_at)
            (check_quantity intent s context.evaluated_at)
    ];
  }

  -- `MarketPositionLimitRule.evaluate`, after the age.
  abbrev pub check_position : OrderIntent → MarketPosition → ℕ → RuleOutcome
  check_position intent s now =
      let projected = abs_ℤ (effective_position s +ℤ signed_quantity intent) in
      if ltb s.max_position projected
      then rule_outcome (str "RISK-009") false (str "RISK_MARKET_POSITION_ABOVE_MAX")
          (some (pos projected)) (some (pos s.max_position)) (str "position") now
      else rule_outcome (str "RISK-009") true (str "RISK_MARKET_POSITION_VALID")
          (some (pos projected)) (some (pos s.max_position)) (str "position") now

  -- `MarketPositionLimitRule`
  unfoldable pub market_position_rule : ℕ → RiskRule Snapshot
  market_position_rule max_age = record {
    rule_id = str "RISK-009";
    version = str "1.0";
    evaluate = λ intent context. elim (context.snapshot.market_positions intent.market_id) [
      | none ↦
          rule_outcome (str "RISK-009") false (str "RISK_MARKET_POSITION_STATE_MISSING") none none
            (str "position") context.evaluated_at
      | some s ↦
          or_else
            (age_outcome (str "RISK-009") max_age (str "RISK_MARKET_POSITION_STATE_FUTURE")
              (str "RISK_MARKET_POSITION_STATE_STALE") context.evaluated_at s.observed_at)
            (check_position intent s context.evaluated_at)
    ];
  }

  -- `KillSwitchClearRule.evaluate`, after the age.
  abbrev pub check_kill_switch : KillSwitchState → ℕ → RuleOutcome
  check_kill_switch s now =
      if not (is_empty s.active_scopes)
      then rule_outcome (str "RISK-019") false (str "RISK_KILL_SWITCH_ACTIVE")
          (some (pos (one * length s.active_scopes))) (some (pos 0)) (str "active_scope_count") now
      else if not s.clear
      then rule_outcome (str "RISK-019") false (str "RISK_KILL_SWITCH_NOT_CLEAR") (some (pos 0))
          (some (pos one)) (str "clear_flag") now
      else rule_outcome (str "RISK-019") true (str "RISK_KILL_SWITCH_CLEAR") (some (pos one))
          (some (pos one)) (str "clear_flag") now

  -- `KillSwitchClearRule`
  unfoldable pub kill_switch_clear_rule : ℕ → RiskRule Snapshot
  kill_switch_clear_rule max_age = record {
    rule_id = str "RISK-019";
    version = str "1.0";
    evaluate = λ intent context. elim context.snapshot.kill_switch_clear [
      | none ↦
          rule_outcome (str "RISK-019") false (str "RISK_KILL_SWITCH_STATE_MISSING") none
            (some (pos one)) (str "clear_flag") context.evaluated_at
      | some s ↦
          or_else
            (age_outcome (str "RISK-019") max_age (str "RISK_KILL_SWITCH_STATE_FUTURE")
              (str "RISK_KILL_SWITCH_STATE_STALE") context.evaluated_at s.observed_at)
            (check_kill_switch s context.evaluated_at)
    ];
  }
