-- ===== src/Risk/Rules/Conditions.antt =====
-- When each rule passes, and when an engine with these rules approves.
use pmrp.Common.{
  ℕ, ◌-◌, ◌*◌, ◌%◌, length, ◌≡◌, refl, ap, ◌∙◌, inl, inr, Bool, true, false, not, ◌&&◌, Option,
  none, some, arith, ltb, leb, nat_eqb, Bool-cases, if◌then◌else◌,
}
use pmrp.Common.Fields.{is_bad_length, is_empty}
use pmrp.Common.Int.{ℤ, pos, ◌+ℤ◌, abs_ℤ}
use pmrp.Common.Text.{Text, str}
use pmrp.Risk.Types.{OrderIntent, make_rule_result}
use pmrp.Risk.Engine.{RuleOutcome}
use pmrp.Risk.Engine.Evaluation.{is_pass}
use pmrp.Risk.Rules.{
  PriceBounds, QuantityLimits, MarketPosition, effective_position, KillSwitchState, rule_outcome,
  or_else, signed_quantity, age_outcome, is_off_tick, tick_value, check_price, check_quantity,
  check_position, check_kill_switch,
}

-- A state that was observed, and not more than `max_age` ago.
abbrev pub fresh : ℕ → ℕ → ℕ → Bool
fresh max_age now observed = leb observed now && leb (now - observed) max_age

-- A condition on a state that must be there.
abbrev pub holds_of {ℓ} : {A : Type ℓ} → Option A → (A → Bool) → Bool
holds_of none p = false
holds_of (some a) p = p a

pub rule_outcome-passed :
    (id reason unit : Text) (passed : Bool) (observed limit : Option ℤ) (now : ℕ)
    → is_bad_length 128 id ≡ false
    → is_bad_length 128 reason ≡ false
    → is_bad_length 64 unit ≡ false
    → is_pass (rule_outcome id passed reason observed limit unit now) ≡ passed
unfolding rule_outcome make_rule_result
rule_outcome-passed id reason unit passed observed limit now a b c = rw (a, b, c) refl

-- A value checked against two bounds and a step.
range_pass :
    (lo hi v : ℕ) (off : Bool) (under over astray good : RuleOutcome)
    → is_pass under ≡ false
    → is_pass over ≡ false
    → is_pass astray ≡ false
    → is_pass good ≡ true
    → is_pass (if ltb v lo then under else if ltb hi v then over else if off then astray else good)
      ≡ (leb lo v && leb v hi && not off)
range_pass lo hi v off under over astray good a b c d = elim (Bool-cases (ltb v lo)) [
  | inl t ↦ let out : leb lo v ≡ false = ground (arith, t) in rw (t, a, out) refl
  | inr t ↦
      let above : leb lo v ≡ true = ground (arith, t) in
      elim (Bool-cases (ltb hi v)) [
        | inl u ↦ let out : leb v hi ≡ false = ground (arith, u) in rw (t, u, b, above, out) refl
        | inr u ↦
            let below : leb v hi ≡ true = ground (arith, u) in
            elim (Bool-cases off) [
              | inl w ↦ rw (t, u, w, c, above, below) refl
              | inr w ↦ rw (t, u, w, d, above, below) refl
            ]
      ]
]

not-not : (b : Bool) → not (not b) ≡ b
not-not b = ground arith

-- The conditions of the rules on their states.
abbrev pub quantity_allowed : OrderIntent → QuantityLimits → Bool
quantity_allowed intent s =
    leb s.min_quantity intent.quantity
    && leb intent.quantity s.max_quantity
    && nat_eqb ((intent.quantity - s.min_quantity) % s.quantity_increment) 0

abbrev pub price_allowed : ℕ → PriceBounds → Bool
price_allowed price s =
    leb s.min_price price && leb price s.max_price && not (is_off_tick s price s.tick_size)

abbrev pub position_allowed : OrderIntent → MarketPosition → Bool
position_allowed intent s =
    leb (abs_ℤ (effective_position s +ℤ signed_quantity intent)) s.max_position

abbrev pub trading_clear : KillSwitchState → Bool
trading_clear s = is_empty s.active_scopes && s.clear

module _ (milliseconds : ℕ → ℤ) (one : ℕ) where
  -- With reasons that fit, a rule passes just when its state is fresh and the check passes.
  pub aged :
      (id future stale : Text) (max_age now observed : ℕ) (o : RuleOutcome)
      → is_bad_length 128 id ≡ false
      → is_bad_length 128 future ≡ false
      → is_bad_length 128 stale ≡ false
      → is_pass (or_else (age_outcome milliseconds one id max_age future stale now observed) o)
        ≡ (fresh max_age now observed && is_pass o)
  aged id future stale max_age now observed o a b c =
      let failed = λ (reason : Text) (x y : ℤ) (fits : is_bad_length 128 reason ≡ false).
        rule_outcome-passed id reason (str "milliseconds") false (some x) (some y) now a fits
          refl in
      elim (Bool-cases (ltb now observed)) [
        | inl early ↦
            let late : leb observed now ≡ false = ground (arith, early) in
            rw (early, failed future (milliseconds (observed - now)) (pos 0) b, late) refl
        | inr h ↦
            let seen : leb observed now ≡ true = ground (arith, h) in
            elim (Bool-cases (ltb max_age (now - observed))) [
              | inl old ↦
                  let age : leb (now - observed) max_age ≡ false = ground (arith, old) in
                  rw
                    (
                      h,
                      old,
                      failed stale (milliseconds (now - observed)) (milliseconds max_age) c,
                      seen,
                      age,
                    )
                    refl
              | inr young ↦
                  let age : leb (now - observed) max_age ≡ true = ground (arith, young) in
                  rw (h, young, seen, age) refl
            ]
      ]

  pub check_quantity-pass :
      (intent : OrderIntent) (s : QuantityLimits) (now : ℕ)
      → is_pass (check_quantity milliseconds one intent s now) ≡ quantity_allowed intent s
  check_quantity-pass intent s now =
      let q = intent.quantity in
      let on = nat_eqb ((q - s.min_quantity) % s.quantity_increment) 0 in
      range_pass s.min_quantity s.max_quantity q (not on) _ _ _ _
        (rule_outcome-passed (str "RISK-007") (str "RISK_ORDER_QUANTITY_BELOW_MIN")
          (str "min_quantity") false (some (pos q)) (some (pos s.min_quantity)) now refl refl refl)
        (rule_outcome-passed (str "RISK-007") (str "RISK_ORDER_QUANTITY_ABOVE_MAX")
          (str "max_quantity") false (some (pos q)) (some (pos s.max_quantity)) now refl refl refl)
        (rule_outcome-passed (str "RISK-007") (str "RISK_ORDER_QUANTITY_OFF_INCREMENT")
          (str "quantity_increment") false (some (pos q)) (some (pos s.quantity_increment)) now refl
          refl refl)
        (rule_outcome-passed (str "RISK-007") (str "RISK_ORDER_QUANTITY_VALID") (str "quantity")
          true (some (pos q)) (some (pos s.max_quantity)) now refl refl refl)
      ∙ ap (λ (b : Bool). leb s.min_quantity q && leb q s.max_quantity && b) (not-not on)

  pub check_price-pass :
      (price : ℕ) (s : PriceBounds) (now : ℕ)
      → is_pass (check_price milliseconds one price s now) ≡ price_allowed price s
  check_price-pass price s now =
      range_pass s.min_price s.max_price price (is_off_tick s price s.tick_size) _ _ _ _
        (rule_outcome-passed (str "RISK-006") (str "RISK_ORDER_PRICE_BELOW_MIN") (str "min_price")
          false (some (pos price)) (some (pos s.min_price)) now refl refl refl)
        (rule_outcome-passed (str "RISK-006") (str "RISK_ORDER_PRICE_ABOVE_MAX") (str "max_price")
          false (some (pos price)) (some (pos s.max_price)) now refl refl refl)
        (rule_outcome-passed (str "RISK-006") (str "RISK_ORDER_PRICE_OFF_TICK") (str "tick_size")
          false (some (pos price)) (tick_value s.tick_size) now refl refl refl)
        (rule_outcome-passed (str "RISK-006") (str "RISK_ORDER_PRICE_VALID") (str "price") true
          (some (pos price)) (some (pos s.max_price)) now refl refl refl)

  pub check_position-pass :
      (intent : OrderIntent) (s : MarketPosition) (now : ℕ)
      → is_pass (check_position milliseconds one intent s now) ≡ position_allowed intent s
  check_position-pass intent s now =
      let projected = abs_ℤ (effective_position s +ℤ signed_quantity intent) in
      let judged = λ (passed : Bool) (reason : Text) (fits : is_bad_length 128 reason ≡ false).
        rule_outcome-passed (str "RISK-009") reason (str "position") passed (some (pos projected))
          (some (pos s.max_position)) now refl fits refl in
      elim (Bool-cases (ltb s.max_position projected)) [
        | inl over ↦
            let out : leb projected s.max_position ≡ false = ground (arith, over) in
            rw (over, judged false (str "RISK_MARKET_POSITION_ABOVE_MAX") refl, out) refl
        | inr h ↦
            let within : leb projected s.max_position ≡ true = ground (arith, h) in
            rw (h, judged true (str "RISK_MARKET_POSITION_VALID") refl, within) refl
      ]

  pub check_kill_switch-pass :
      (s : KillSwitchState) (now : ℕ)
      → is_pass (check_kill_switch milliseconds one s now) ≡ trading_clear s
  check_kill_switch-pass s now = elim (Bool-cases (is_empty s.active_scopes)) [
    | inl none_active ↦ elim (Bool-cases s.clear) [
      | inl c ↦
          rw
            (
              none_active,
              c,
              rule_outcome-passed (str "RISK-019") (str "RISK_KILL_SWITCH_CLEAR") (str "clear_flag")
                  true (some (pos one)) (some (pos one)) now refl refl refl,
            )
            refl
      | inr c ↦
          rw
            (
              none_active,
              c,
              rule_outcome-passed (str "RISK-019") (str "RISK_KILL_SWITCH_NOT_CLEAR")
                  (str "clear_flag") false (some (pos 0)) (some (pos one)) now refl refl refl,
            )
            refl
    ]
    | inr active ↦
        rw
          (
            active,
            rule_outcome-passed (str "RISK-019") (str "RISK_KILL_SWITCH_ACTIVE")
                (str "active_scope_count") false (some (pos (one * length s.active_scopes)))
                (some (pos 0)) now refl refl refl,
          )
          refl
  ]
