-- ===== src/Portfolio/Journal/Accepted.antt =====
-- The projection of a fill passes the validation of its journal entry.
use pmrp.Common.{ℕ, ◌+◌, ◌*◌, ◌≤◌, ◌≡◌, refl, ap, ◌∙◌, sym, true, false, Option, arith}
use pmrp.Common.Int.{ℤ, pos, ◌+ℤ◌, ◌*ℤ◌, neg_ℤ, ltb_ℤ}
use pmrp.Common.Text.{Text, text_eq, text_eqb, text_eqb_iff}
use pmrp.Common.Result.{ok}
use pmrp.Portfolio.Types.{Money, Fill}
use pmrp.Portfolio.Decimals.{Context, round_ℤ, round_difference, mul_mono}
use pmrp.Portfolio.Entry.Balanced.{eqb_ℤ_iff}
use pmrp.Portfolio.Average.{fill_direction, WeightedAverage}
use pmrp.Portfolio.Average.Parts.{IsExact}
use pmrp.Portfolio.Positions.{
  validate_money, fill_money, Existing, projected_position, PositionProjection, projection_of,
}
use pmrp.Portfolio.Positions.Projection.{fill_money-value}
use pmrp.Portfolio.Journal.{
  expected_realized, validate_nonnegative_money, validate_identity, validate_moneys,
  validate_amounts, validate_projection_for_fill,
}

text_self : (s : Text) → text_eqb s s ≡ true
text_self s = (text_eqb_iff s s).1 refl

pos_nonnegative : (n : ℕ) → ltb_ℤ (pos n) (pos 0) ≡ false
pos_nonnegative n = ground arith

pos_sum : (a b c : ℕ) → a + b ≡ c → pos a +ℤ pos b ≡ pos c
unfolding ◌+ℤ◌
pos_sum a b c h = ground (arith, h)

pos_product : (a b c : ℕ) → c ≡ a * b → pos c ≡ pos a *ℤ pos b
unfolding ◌*ℤ◌
pos_product a b c h = ap pos h

-- A value that is a quantity at a price is its rounding when it fits.
rounded_product :
    (c : Context) (a b v : ℕ) → v ≡ a * b → a * b ≤ c.limit → pos v ≡ round_ℤ c (pos a *ℤ pos b)
unfolding ◌*ℤ◌ round_ℤ
rounded_product c a b v h fits = ap pos (h ∙ sym (c.exact (a * b) fits))

module _ (c : Context) (existing : ℤ) (e : Existing) (w : WeightedAverage) (opened : Option ℕ)
    (fill : Fill) (currency : Text) (fee rebate : Money) where
  abbrev projected : PositionProjection
  projected =
      projection_of c w (projected_position e w opened fill currency fee rebate) fill currency fee
        rebate

  identity-accepted : validate_identity fill projected ≡ ok tt
  unfolding validate_identity
  identity-accepted =
      rw
        (
          text_self fill.exchange,
          text_self fill.account_id,
          text_self fill.market_id,
          text_self fill.contract_id,
          text_self fill.outcome_id,
        )
        refl

  moneys-accepted :
      fill_money fill.fee currency ≡ ok fee
      → fill_money fill.rebate currency ≡ ok rebate
      → validate_moneys projected ≡ ok tt
  unfolding validate_moneys validate_money validate_nonnegative_money
  moneys-accepted f r =
      let (_, fee_ok, fee_in) = fill_money-value fill.fee currency fee f in
      let (_, rebate_ok, rebate_in) = fill_money-value fill.rebate currency rebate r in
      rw
        (
          fee_in,
          rebate_in,
          text_self currency,
          fee_ok,
          rebate_ok,
          pos_nonnegative (c.round (fill.quantity * fill.price)),
          pos_nonnegative w.closed_cost_basis,
          pos_nonnegative w.closed_trade_value,
          pos_nonnegative w.opened_notional,
        )
        refl

  amounts-accepted :
      fill_money fill.fee currency ≡ ok fee
      → fill_money fill.rebate currency ≡ ok rebate
      → IsExact existing fill w
      → fill.quantity * fill.price ≤ c.limit
      → w.closed_cost_basis ≤ c.limit
      → validate_amounts c fill projected ≡ ok tt
  unfolding validate_amounts
  amounts-accepted f r x fits cost_fits =
      let (expected_fee, _, fee_in) = fill_money-value fill.fee currency fee f in
      let (expected_rebate, _, rebate_in) = fill_money-value fill.rebate currency rebate r in
      let same = λ (a : ℤ). (eqb_ℤ_iff a a).1 refl in
      let ka : w.closed_quantity * fill.price ≤ c.limit = omega (
        arith,
        mul_mono w.closed_quantity fill.quantity fill.price (omega (arith, x.split)),
        fits,
      ) in
      let kb : w.opened_quantity * fill.price ≤ c.limit = omega (
        arith,
        mul_mono w.opened_quantity fill.quantity fill.price (omega (arith, x.split)),
        fits,
      ) in
      let value_fits : w.closed_trade_value ≤ c.limit = omega (arith, x.closed_value, ka) in
      let sum =
        (eqb_ℤ_iff (pos w.closed_quantity +ℤ pos w.opened_quantity) (pos fill.quantity)).1
          (pos_sum w.closed_quantity w.opened_quantity fill.quantity x.split) in
      let closed =
        (eqb_ℤ_iff (pos w.closed_trade_value)
            (round_ℤ c (pos w.closed_quantity *ℤ pos fill.price))).1
          (rounded_product c w.closed_quantity fill.price w.closed_trade_value x.closed_value ka) in
      let opens =
        (eqb_ℤ_iff (pos w.opened_notional) (round_ℤ c (pos w.opened_quantity *ℤ pos fill.price))).1
          (rounded_product c w.opened_quantity fill.price w.opened_notional x.opened_value kb) in
      let realized = (eqb_ℤ_iff w.realized_trading_pnl (expected_realized c fill projected)).1 (
        x.realized
        ∙ ap (λ (z : ℤ). z *ℤ neg_ℤ (fill_direction fill))
            (sym (
              round_difference c w.closed_trade_value w.closed_cost_basis value_fits cost_fits))) in
      rw
        (
          expected_fee,
          expected_rebate,
          same (pos (c.round (fill.quantity * fill.price))),
          same fee.amount,
          same rebate.amount,
          text_self fee.currency,
          text_self rebate.currency,
          pos_nonnegative w.closed_quantity,
          pos_nonnegative w.opened_quantity,
          sum,
          closed,
          opens,
          realized,
        )
        refl

  -- A fill's own projection passes the validation of its journal entry, when its notional and the
  -- cost of what it closes fit the context.
  pub projection-accepted :
      fill_money fill.fee currency ≡ ok fee
      → fill_money fill.rebate currency ≡ ok rebate
      → IsExact existing fill w
      → fill.quantity * fill.price ≤ c.limit
      → w.closed_cost_basis ≤ c.limit
      → validate_projection_for_fill c fill projected ≡ ok tt
  unfolding validate_projection_for_fill
  projection-accepted f r x fits cost_fits =
      rw (identity-accepted, moneys-accepted f r, amounts-accepted f r x fits cost_fits) refl
