-- ===== src/Risk/Rules/Approval.antt =====
-- When an engine with the four rules approves.
use pmrp.Common.{
  ℕ, ◌≡◌, refl, ap, ◌∙◌, Bool, true, false, not, ◌&&◌, Option, none, some, List, [], ◌∷◌, all_of,
}
use pmrp.Common.Fields.{is_none}
use pmrp.Common.Int.{ℤ, pos}
use pmrp.Common.Text.{Text, str}
use pmrp.Common.Result.{ok}
use pmrp.Risk.Types.{OrderIntent, RiskDecision}
use pmrp.Risk.Engine.{RiskContext, RuleOutcome, RiskRule, RiskEngine, evaluate, is_approved}
use pmrp.Risk.Engine.Evaluation.{is_pass, passes}
use pmrp.Risk.Engine.Decision.{IsReadyCall, evaluate_lem}
use pmrp.Risk.Rules.{
  PriceBounds, Snapshot, evaluate_price, order_price_rule, check_price, check_quantity,
  order_quantity_rule, check_position, market_position_rule, check_kill_switch,
  kill_switch_clear_rule,
}
use pmrp.Risk.Rules.Conditions.{
  fresh, holds_of, rule_outcome-passed, aged, quantity_allowed, check_quantity-pass, price_allowed,
  check_price-pass, position_allowed, check_position-pass, trading_clear, check_kill_switch-pass,
}

-- A rule that looks a state up: it fails without one, and judges the one that it finds.
looked_up {ℓ} :
    {A : Type ℓ} (o : Option A) (missing : RuleOutcome) (found : A → RuleOutcome) (p : A → Bool)
    → is_pass missing ≡ false
    → ((a : A) → is_pass (found a) ≡ p a)
    → is_pass (elim o [ none ↦ missing | some a ↦ found a ]) ≡ holds_of o p
looked_up none missing found p m f = m
looked_up (some a) missing found p m f = f a

module _ (milliseconds : ℕ → ℤ) (one : ℕ) where
  -- The conditions of the four rules, each on a state that is there and fresh.
  abbrev pub quantity_holds : ℕ → OrderIntent → RiskContext Snapshot → Bool
  quantity_holds max_age intent context =
      holds_of (context.snapshot.quantity_limits intent.contract_id)
        (λ s. fresh max_age context.evaluated_at s.observed_at && quantity_allowed intent s)

  abbrev pub position_holds : ℕ → OrderIntent → RiskContext Snapshot → Bool
  position_holds max_age intent context =
      holds_of (context.snapshot.market_positions intent.market_id)
        (λ s. fresh max_age context.evaluated_at s.observed_at && position_allowed intent s)

  abbrev pub kill_switch_holds : ℕ → OrderIntent → RiskContext Snapshot → Bool
  kill_switch_holds max_age intent context =
      holds_of context.snapshot.kill_switch_clear
        (λ s. fresh max_age context.evaluated_at s.observed_at && trading_clear s)

  abbrev pub price_within : ℕ → ℕ → Option PriceBounds → Option ℕ → Bool
  price_within max_age now bounds none = true
  price_within max_age now bounds (some price) =
      holds_of bounds (λ s. fresh max_age now s.observed_at && price_allowed price s)

  abbrev pub price_holds : ℕ → OrderIntent → RiskContext Snapshot → Bool
  price_holds max_age intent context =
      price_within max_age context.evaluated_at (context.snapshot.price_bounds intent.market_id)
        intent.limit_price

  quantity-passes :
      (max_age : ℕ) (intent : OrderIntent) (context : RiskContext Snapshot)
      → passes intent context (order_quantity_rule milliseconds one max_age)
        ≡ quantity_holds max_age intent context
  unfolding order_quantity_rule
  quantity-passes max_age intent context =
      let now = context.evaluated_at in
      looked_up (context.snapshot.quantity_limits intent.contract_id) _ _ _
        (rule_outcome-passed (str "RISK-007") (str "RISK_ORDER_QUANTITY_LIMITS_MISSING")
          (str "quantity") false (some (pos intent.quantity)) none now refl refl refl)
        (λ s.
          aged milliseconds one (str "RISK-007") (str "RISK_ORDER_QUANTITY_LIMITS_FUTURE")
            (str "RISK_ORDER_QUANTITY_LIMITS_STALE") max_age now s.observed_at
            (check_quantity milliseconds one intent s now) refl refl refl
          ∙ ap (λ (b : Bool). fresh max_age now s.observed_at && b)
              (check_quantity-pass milliseconds one intent s now))

  position-passes :
      (max_age : ℕ) (intent : OrderIntent) (context : RiskContext Snapshot)
      → passes intent context (market_position_rule milliseconds one max_age)
        ≡ position_holds max_age intent context
  unfolding market_position_rule
  position-passes max_age intent context =
      let now = context.evaluated_at in
      looked_up (context.snapshot.market_positions intent.market_id) _ _ _
        (rule_outcome-passed (str "RISK-009") (str "RISK_MARKET_POSITION_STATE_MISSING")
          (str "position") false none none now refl refl refl)
        (λ s.
          aged milliseconds one (str "RISK-009") (str "RISK_MARKET_POSITION_STATE_FUTURE")
            (str "RISK_MARKET_POSITION_STATE_STALE") max_age now s.observed_at
            (check_position milliseconds one intent s now) refl refl refl
          ∙ ap (λ (b : Bool). fresh max_age now s.observed_at && b)
              (check_position-pass milliseconds one intent s now))

  kill_switch-passes :
      (max_age : ℕ) (intent : OrderIntent) (context : RiskContext Snapshot)
      → passes intent context (kill_switch_clear_rule milliseconds one max_age)
        ≡ kill_switch_holds max_age intent context
  unfolding kill_switch_clear_rule
  kill_switch-passes max_age intent context =
      let now = context.evaluated_at in
      looked_up context.snapshot.kill_switch_clear _ _ _
        (rule_outcome-passed (str "RISK-019") (str "RISK_KILL_SWITCH_STATE_MISSING")
          (str "clear_flag") false none (some (pos one)) now refl refl refl)
        (λ s.
          aged milliseconds one (str "RISK-019") (str "RISK_KILL_SWITCH_STATE_FUTURE")
            (str "RISK_KILL_SWITCH_STATE_STALE") max_age now s.observed_at
            (check_kill_switch milliseconds one s now) refl refl refl
          ∙ ap (λ (b : Bool). fresh max_age now s.observed_at && b)
              (check_kill_switch-pass milliseconds one s now))

  price_checked :
      (max_age now price : ℕ) (bounds : Option PriceBounds)
      → is_pass (evaluate_price milliseconds one max_age now price bounds)
        ≡ holds_of bounds (λ s. fresh max_age now s.observed_at && price_allowed price s)
  price_checked max_age now price none =
      rule_outcome-passed (str "RISK-006") (str "RISK_ORDER_PRICE_BOUNDS_MISSING") (str "price")
        false (some (pos price)) none now refl refl refl
  price_checked max_age now price (some s) =
      aged milliseconds one (str "RISK-006") (str "RISK_ORDER_PRICE_BOUNDS_FUTURE")
        (str "RISK_ORDER_PRICE_BOUNDS_STALE") max_age now s.observed_at
        (check_price milliseconds one price s now) refl refl refl
      ∙ ap (λ (b : Bool). fresh max_age now s.observed_at && b)
          (check_price-pass milliseconds one price s now)

  price-passes :
      (max_age : ℕ) (intent : OrderIntent) (context : RiskContext Snapshot)
      → passes intent context (order_price_rule milliseconds one max_age)
        ≡ price_holds max_age intent context
  unfolding order_price_rule
  price-passes max_age intent context = go intent.limit_price
    where
      go :
          (o : Option ℕ)
          → passes
              (record intent { limit_price = o })
              context
              (order_price_rule milliseconds one max_age)
            ≡ price_within max_age context.evaluated_at
                (context.snapshot.price_bounds intent.market_id)
                o
      go none =
          rule_outcome-passed (str "RISK-006") (str "RISK_ORDER_PRICE_NOT_REQUIRED") (str "price")
            true none none context.evaluated_at refl refl refl
      go (some price) =
          price_checked max_age context.evaluated_at price
            (context.snapshot.price_bounds intent.market_id)

  abbrev pub trading_rules : ℕ → List (RiskRule Snapshot)
  trading_rules max_age =
      order_price_rule milliseconds one max_age
      ∷ order_quantity_rule milliseconds one max_age
      ∷ market_position_rule milliseconds one max_age
      ∷ kill_switch_clear_rule milliseconds one max_age
      ∷ []

  -- An engine with the four rules returns a decision on a ready call, and approves just when the
  -- intent has a price, and the price bounds, the quantity limits, the position and the kill
  -- switches are all there, fresh and satisfied: a missing, future or stale state is rejected.
  pub approves_just_when :
      (engine : RiskEngine Snapshot) (intent : OrderIntent) (context : RiskContext Snapshot)
      (id : Text)
      → (max_age : ℕ) → engine.rules ≡ trading_rules max_age
      → IsReadyCall engine intent context id
      → (d : RiskDecision) × (evaluate engine intent context id ≡ ok d)
        × (is_approved d.status ≡ (
            price_holds max_age intent context
            && (quantity_holds max_age intent context
                && (position_holds max_age intent context
                    && (kill_switch_holds max_age intent context && true)))
            && not (is_none intent.limit_price)))
  approves_just_when engine intent context id max_age h c =
      let decided = evaluate_lem engine intent context id c in
      let priced = not (is_none intent.limit_price) in
      let judged : all_of (passes intent context) (trading_rules max_age) ≡ (
          price_holds max_age intent context
          && (quantity_holds max_age intent context
              && (position_holds max_age intent context
                  && (kill_switch_holds max_age intent context && true)))) =
        rw
          (
            price-passes max_age intent context,
            quantity-passes max_age intent context,
            position-passes max_age intent context,
            kill_switch-passes max_age intent context,
          )
          refl in
      (
        decided.0,
        decided.1,
        decided.2
            ∙ ap (λ (rs : List (RiskRule Snapshot)). all_of (passes intent context) rs && priced) h
            ∙ ap (λ (b : Bool). b && priced) judged,
      )
