-- ===== src/Portfolio/Journal/Matching.antt =====
-- What the validation of a projection establishes of its amounts.
use pmrp.Common.{ℕ, ◌*◌, ◌≤◌, ◌≡◌, ap, ◌∙◌, Bool, true, false, not, ◌||◌, arith}
use pmrp.Common.Int.{
  ℤ, pos, ◌+ℤ◌, ◌-ℤ◌, ◌*ℤ◌, neg_ℤ, abs_ℤ, eqb_ℤ, ltb_ℤ, +ℤ_parts, -ℤ_parts, parts_of_eq,
}
use pmrp.Common.Text.{text_eq}
use pmrp.Common.Result.{ok, raise_if_inversion, bind_inversion}
use pmrp.Portfolio.Types.{Fill}
use pmrp.Portfolio.Decimals.{Context, round_ℤ, round_ℤ-exact, mul_mono, abs_mul}
use pmrp.Portfolio.Entry.Balanced.{eqb_ℤ_iff}
use pmrp.Portfolio.Average.{fill_direction}
use pmrp.Portfolio.Positions.{PositionProjection, validate_money}
use pmrp.Portfolio.Journal.{
  expected_money, money_eqb, expected_realized, validate_nonnegative_money, validate_identity,
  validate_moneys, validate_amounts, validate_projection_for_fill,
}

-- What the validation of a projection establishes of its amounts.
pub record IsMatching (fill : Fill) (r : PositionProjection) : Type 0 where
  pub notional : r.trade_notional.amount ≡ pos (fill.quantity * fill.price)
  pub closed_nonnegative : ltb_ℤ r.closed_quantity (pos 0) ≡ false
  pub opened_nonnegative : ltb_ℤ r.opened_quantity (pos 0) ≡ false
  pub split : r.closed_quantity +ℤ r.opened_quantity ≡ pos fill.quantity
  pub closed_value : r.closed_trade_value.amount ≡ r.closed_quantity *ℤ pos fill.price
  pub opened_value : r.opened_notional.amount ≡ r.opened_quantity *ℤ pos fill.price
  pub realized :
      r.realized_trading_pnl.amount
      ≡ (r.closed_trade_value.amount -ℤ r.closed_cost_basis.amount) *ℤ neg_ℤ (fill_direction fill)
  pub fee_nonnegative : ltb_ℤ r.fee.amount (pos 0) ≡ false
  pub rebate_nonnegative : ltb_ℤ r.rebate.amount (pos 0) ≡ false

not-false : (b : Bool) → not b ≡ false → b ≡ true
not-false b h = ground (arith, h)

nonnegative_moneys :
    (r : PositionProjection)
    → validate_moneys r ≡ ok tt
    → (ltb_ℤ r.fee.amount (pos 0) ≡ false)
      × (ltb_ℤ r.rebate.amount (pos 0) ≡ false)
      × (ltb_ℤ r.closed_cost_basis.amount (pos 0) ≡ false)
      × (ltb_ℤ r.closed_trade_value.amount (pos 0) ≡ false)
unfolding validate_moneys validate_nonnegative_money
nonnegative_moneys r h =
    let c = r.trade_notional.currency in
    let (_, h1) = bind_inversion (validate_money r.realized_trading_pnl c) _ h in
    let (_, h2) = bind_inversion (validate_money r.fee c) _ h1 in
    let (_, h3) = bind_inversion (validate_money r.rebate c) _ h2 in
    let (_, h4) = bind_inversion (validate_money r.closed_cost_basis c) _ h3 in
    let (_, h5) = bind_inversion (validate_money r.closed_trade_value c) _ h4 in
    let (_, h6) = bind_inversion (validate_money r.opened_notional c) _ h5 in
    let h7 = raise_if_inversion (ltb_ℤ r.trade_notional.amount (pos 0)) _ _ h6 in
    let h8 = raise_if_inversion (ltb_ℤ r.fee.amount (pos 0)) _ _ h7.1 in
    let h9 = raise_if_inversion (ltb_ℤ r.rebate.amount (pos 0)) _ _ h8.1 in
    let h10 = raise_if_inversion (ltb_ℤ r.closed_cost_basis.amount (pos 0)) _ _ h9.1 in
    let h11 = raise_if_inversion (ltb_ℤ r.closed_trade_value.amount (pos 0)) _ _ h10.1 in
    (h8.0, h9.0, h10.0, h11.0)

-- A part of the fill's quantity at its price is exact when the notional fits.
part-exact :
    (c : Context) (a b : ℤ) (q p : ℕ)
    → ltb_ℤ a (pos 0) ≡ false
    → ltb_ℤ b (pos 0) ≡ false
    → a +ℤ b ≡ pos q
    → q * p ≤ c.limit
    → (abs_ℤ (a *ℤ pos p) ≤ c.limit) × (abs_ℤ (b *ℤ pos p) ≤ c.limit)
part-exact c a b q p ha hb sum fits =
    let parts = +ℤ_parts a b in
    let total = parts_of_eq sum in
    let la : abs_ℤ a ≤ q = ground (arith, ha, hb, parts, total) in
    let lb : abs_ℤ b ≤ q = ground (arith, ha, hb, parts, total) in
    (
      omega (arith, abs_mul a p, mul_mono (abs_ℤ a) q p la, fits),
      omega (arith, abs_mul b p, mul_mono (abs_ℤ b) q p lb, fits),
    )

difference-exact :
    (c : Context) (a b : ℤ)
    → ltb_ℤ a (pos 0) ≡ false
    → ltb_ℤ b (pos 0) ≡ false
    → abs_ℤ a ≤ c.limit
    → abs_ℤ b ≤ c.limit
    → round_ℤ c (a -ℤ b) ≡ a -ℤ b
difference-exact c a b ha hb la lb =
    round_ℤ-exact c (a -ℤ b) (difference_bound c.limit a b ha hb la lb)
  where
    difference_bound :
        (l : ℕ) (a b : ℤ)
        → ltb_ℤ a (pos 0) ≡ false
        → ltb_ℤ b (pos 0) ≡ false
        → abs_ℤ a ≤ l
        → abs_ℤ b ≤ l
        → abs_ℤ (a -ℤ b) ≤ l
    difference_bound l a b ha hb la lb = ground (arith, ha, hb, la, lb, -ℤ_parts a b)

pub validated-IsMatching :
    (c : Context) (fill : Fill) (r : PositionProjection)
    → validate_projection_for_fill c fill r ≡ ok tt
    → fill.quantity * fill.price ≤ c.limit
    → abs_ℤ r.closed_cost_basis.amount ≤ c.limit
    → IsMatching fill r
unfolding validate_projection_for_fill validate_amounts
validated-IsMatching c fill r h fits cost_fits =
    let k = r.trade_notional.currency in
    let (_, h1) = bind_inversion (validate_identity fill r) _ h in
    let (m, a0) = bind_inversion (validate_moneys r) _ h1 in
    let (fee, rebate, cost, value) = nonnegative_moneys r m in
    let same =
      λ (a b : ℤ) (e : not (eqb_ℤ a b) ≡ false). (eqb_ℤ_iff a b).0 (not-false (eqb_ℤ a b) e) in
    let n = pos (c.round (fill.quantity * fill.price)) in
    let ctv = round_ℤ c (r.closed_quantity *ℤ pos fill.price) in
    let on = round_ℤ c (r.opened_quantity *ℤ pos fill.price) in
    let a1 = raise_if_inversion (not (eqb_ℤ r.trade_notional.amount n)) _ _ a0 in
    let a2 = raise_if_inversion (not (money_eqb r.fee (expected_money fill.fee k))) _ _ a1.1 in
    let a3 =
      raise_if_inversion (not (money_eqb r.rebate (expected_money fill.rebate k))) _ _ a2.1 in
    let a4 =
      raise_if_inversion (ltb_ℤ r.closed_quantity (pos 0) || ltb_ℤ r.opened_quantity (pos 0)) _ _
        a3.1 in
    let a5 =
      raise_if_inversion (not (eqb_ℤ (r.closed_quantity +ℤ r.opened_quantity) (pos fill.quantity)))
        _ _ a4.1 in
    let a6 = raise_if_inversion (not (eqb_ℤ r.closed_trade_value.amount ctv)) _ _ a5.1 in
    let a7 = raise_if_inversion (not (eqb_ℤ r.opened_notional.amount on)) _ _ a6.1 in
    let closed_ok : ltb_ℤ r.closed_quantity (pos 0) ≡ false = ground (arith, a4.0) in
    let opened_ok : ltb_ℤ r.opened_quantity (pos 0) ≡ false = ground (arith, a4.0) in
    let sum = same (r.closed_quantity +ℤ r.opened_quantity) (pos fill.quantity) a5.0 in
    let (closed_fits, opened_fits) =
      part-exact c r.closed_quantity r.opened_quantity fill.quantity fill.price closed_ok opened_ok
        sum fits in
    let closed_value =
      same r.closed_trade_value.amount ctv a6.0
      ∙ round_ℤ-exact c (r.closed_quantity *ℤ pos fill.price) closed_fits in
    let value_fits : abs_ℤ r.closed_trade_value.amount ≤ c.limit = rw closed_value closed_fits in
    record {
      notional =
          same r.trade_notional.amount n a1.0 ∙ ap pos (c.exact (fill.quantity * fill.price) fits);
      closed_nonnegative = closed_ok;
      opened_nonnegative = opened_ok;
      split = sum;
      closed_value = closed_value;
      opened_value =
          same r.opened_notional.amount on a7.0
          ∙ round_ℤ-exact c (r.opened_quantity *ℤ pos fill.price) opened_fits;
      realized =
          same r.realized_trading_pnl.amount (expected_realized c fill r) (ground (arith, a7.1))
          ∙ ap (λ (z : ℤ). z *ℤ neg_ℤ (fill_direction fill))
              (difference-exact c r.closed_trade_value.amount r.closed_cost_basis.amount value cost
                value_fits cost_fits);
      fee_nonnegative = fee;
      rebate_nonnegative = rebate;
    }
