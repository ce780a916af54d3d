-- ===== src/Risk/Tests/Rules.antt =====
-- An engine with the four rules on an intent that they accept, and on one over the position.
use pmrp.Common.{ℕ, ◌≡◌, refl, true, false, not, ◌&&◌, some, [], arith}
use pmrp.Common.Fields.{is_none}
use pmrp.Common.Int.{ℤ, pos, ◌+ℤ◌, neg_ℤ}
use pmrp.Common.Text.{str}
use pmrp.Common.Result.{ok}
use pmrp.Risk.Types.{RiskDecision, make_rule_result}
use pmrp.Risk.Engine.{RiskContext, RiskEngine, evaluate, is_approved}
use pmrp.Risk.Engine.Decision.{IsReadyCall}
use pmrp.Risk.Rules.{
  Snapshot, rule_outcome, order_price_rule, order_quantity_rule, market_position_rule,
  kill_switch_clear_rule,
}
use pmrp.Risk.Rules.Approval.{
  price_holds, quantity_holds, position_holds, kill_switch_holds, trading_rules, approves_just_when,
}
use pmrp.Risk.Tests.{intent}

-- A duration in milliseconds, in units of a thousandth.
abbrev in_milliseconds : ℕ → ℤ
in_milliseconds n = pos n

abbrev snapshot : ℤ → Snapshot
snapshot held = record {
  price_bounds =
      λ id. some (record { min_price = 1; max_price = 99; observed_at = 990; tick_size = some 2 });
  quantity_limits = λ id.
      some
        (record { min_quantity = 1; max_quantity = 50; quantity_increment = 1; observed_at = 995 });
  market_positions = λ id. some (record {
    current_position = held;
    max_position = 100;
    observed_at = 1000;
    open_order_position_delta = pos 0;
    reserved_position_delta = pos 0;
  });
  kill_switch_clear = some (record { clear = true; observed_at = 999; active_scopes = [] });
}

abbrev at_position : ℤ → RiskContext Snapshot
at_position held = record { evaluated_at = 1000; snapshot = snapshot held }

abbrev trading_engine : RiskEngine Snapshot
trading_engine = record {
  rules = trading_rules in_milliseconds 1000 20;
  configuration_hash = str "sha256:1";
  approval_ttl = some 500;
  risk_decision_id = λ i t s h rs. str "risk_1";
}

accepted_and_refused :
    (price_holds in_milliseconds 1000 20 intent (at_position (pos 50)) ≡ true)
    × (quantity_holds in_milliseconds 1000 20 intent (at_position (pos 50)) ≡ true)
    × (position_holds in_milliseconds 1000 20 intent (at_position (pos 50)) ≡ true)
    × (position_holds in_milliseconds 1000 20 intent (at_position (pos 99)) ≡ false)
    × (kill_switch_holds in_milliseconds 1000 20 intent (at_position (pos 50)) ≡ true)
unfolding ◌+ℤ◌ neg_ℤ
accepted_and_refused = (refl, refl, refl, refl, refl)

trading_ready : IsReadyCall trading_engine intent (at_position (pos 50)) (str "snap_1")
unfolding order_price_rule order_quantity_rule market_position_rule kill_switch_clear_rule
    rule_outcome make_rule_result ◌+ℤ◌ neg_ℤ
trading_ready = record {
  has_rules = refl;
  rules_ready = (
    record { id_fits = refl; version_fits = refl; name_fits = λ name h. ground arith },
    (
      record { id_fits = refl; version_fits = refl; name_fits = λ name h. ground arith },
      (
        record { id_fits = refl; version_fits = refl; name_fits = λ name h. ground arith },
        (record { id_fits = refl; version_fits = refl; name_fits = λ name h. ground arith }, tt),
      ),
    ),
  );
  hash_fits = refl;
  ttl_positive = λ t h. ground (arith, h);
  id_fits = refl;
  quantity_positive = omega arith;
}

approves_just_when_example :
    (d : RiskDecision) × (evaluate trading_engine intent (at_position (pos 50)) (str "snap_1")
      ≡ ok d)
    × (is_approved d.status ≡ (
        price_holds in_milliseconds 1000 20 intent (at_position (pos 50))
        && (quantity_holds in_milliseconds 1000 20 intent (at_position (pos 50))
            && (position_holds in_milliseconds 1000 20 intent (at_position (pos 50))
                && (kill_switch_holds in_milliseconds 1000 20 intent (at_position (pos 50))
                    && true)))
        && not (is_none intent.limit_price)))
approves_just_when_example =
    approves_just_when in_milliseconds 1000 trading_engine intent (at_position (pos 50))
      (str "snap_1") 20 refl trading_ready
