-- ===== src/Portfolio/Average.antt =====
-- The weighted average of a position's cost after a fill (portfolio/positions.py). The division of
-- decimals, which rounds, is that of a context.
pub mod Parts
pub mod Exact
pub mod Closing
use pmrp.Common.{
  ℕ, ◌+◌, ◌-◌, ◌*◌, min, Bool, true, false, not, ◌&&◌, ◌||◌, Option, none, some, ◌++◌, take, ltb,
  leb, if◌then◌else◌,
}
use pmrp.Common.Equality.{◌==◌}
use pmrp.Common.Fields.{is_bad_length, is_none, is_empty, is_currency}
use pmrp.Common.Int.{ℤ, pos, negsuc, ◌+ℤ◌, ◌-ℤ◌, ◌*ℤ◌, neg_ℤ, abs_ℤ, eqb_ℤ, ltb_ℤ}
use pmrp.Common.Text.{Text, str, text_eq}
use pmrp.Common.Result.{Result, ok, raise, ◌>>=◌, ◌>>◌, raise_if}
use pmrp.Simulation.MarketData.{Side, buy, sell}
use pmrp.Portfolio.Decimals.{Context, round_ℤ}
use pmrp.Portfolio.Types.{
  PortfolioError, field_out_of_bounds, updated_too_early, negative_fees, negative_rebates,
  position_mismatch, exchange_mismatch, account_mismatch, market_mismatch, contract_mismatch,
  outcome_mismatch, flat_with_average, open_without_average, currency_mismatch, fill_too_old,
  negative_amount, zero_direction, Money, Position, Fill,
}

abbrev pub is_flat : ℤ → Bool
is_flat z = eqb_ℤ z (pos 0)

-- `_sign`
unfoldable pub sign : ℤ → Result PortfolioError ℤ
sign z =
    if ltb_ℤ (pos 0) z
    then ok (pos 1)
    else if ltb_ℤ z (pos 0)
    then ok (negsuc 0)
    else raise zero_direction

-- `_same_direction`
unfoldable pub same_direction : ℤ → ℤ → Result PortfolioError Bool
same_direction left right = do l ← sign left; r ← sign right; ok (eqb_ℤ l r)

-- `_signed_fill_quantity`
abbrev pub signed_fill_quantity : Fill → ℤ
signed_fill_quantity fill = elim fill.side [
  | buy ↦ pos fill.quantity
  | sell ↦ neg_ℤ (pos fill.quantity)
]

-- `_fill_direction` (portfolio/journal.py)
abbrev pub fill_direction : Fill → ℤ
fill_direction fill = elim fill.side [ buy ↦ pos 1 | sell ↦ negsuc 0 ]

-- `_WeightedAverageProjection`; the quantities and values are absolute.
pub record WeightedAverage : Type 0 where
  pub quantity : ℤ
  pub average_entry_price : Option ℕ
  pub realized_trading_pnl : ℤ
  pub closed_quantity : ℕ
  pub opened_quantity : ℕ
  pub closed_cost_basis : ℕ
  pub closed_trade_value : ℕ
  pub opened_notional : ℕ

-- The value of a position at its average.
abbrev pub carried : ℤ → Option ℕ → ℕ
carried existing none = 0
carried existing (some a) = abs_ℤ existing * a

-- A fill that only opens, at the average that it leaves.
abbrev pub opening : Context → ℤ → Option ℕ → Fill → WeightedAverage
opening c projected average fill = record {
  quantity = projected;
  average_entry_price = average;
  realized_trading_pnl = pos 0;
  closed_quantity = 0;
  opened_quantity = abs_ℤ (signed_fill_quantity fill);
  closed_cost_basis = 0;
  closed_trade_value = 0;
  opened_notional = c.round (abs_ℤ (signed_fill_quantity fill) * fill.price);
}

-- A fill against a position with the average `a` and the direction `d`.
abbrev pub closing : Context → ℤ → ℤ → ℕ → ℤ → Option ℕ → Fill → WeightedAverage
closing c existing projected a d average fill =
    let f = abs_ℤ (signed_fill_quantity fill) in
    let closed = min (abs_ℤ existing) f in
    let opened = f - abs_ℤ existing in
    record {
      quantity = projected;
      average_entry_price = average;
      realized_trading_pnl = round_ℤ c (pos closed *ℤ round_ℤ c (pos fill.price -ℤ pos a)) *ℤ d;
      closed_quantity = closed;
      opened_quantity = opened;
      closed_cost_basis = c.round (closed * a);
      closed_trade_value = c.round (closed * fill.price);
      opened_notional = c.round (opened * fill.price);
    }

module _ (c : Context) where
  -- The rest of `_apply_weighted_average_fill`, for an open position with an average.
  unfoldable pub average_open : ℤ → ℕ → Fill → Result PortfolioError WeightedAverage
  average_open existing a fill =
      let f = signed_fill_quantity fill in
      let projected = existing +ℤ f in
      let total = c.round (c.round (abs_ℤ existing * a) + c.round (abs_ℤ f * fill.price)) in
      let same = ok (opening c projected (some (c.divide total (abs_ℤ projected))) fill) in
      let against =
        (sign existing >>= λ d.
        let turned =
          (same_direction existing projected >>= λ kept.
          ok (closing c existing projected a d (some (if kept then a else fill.price)) fill)) in
        if is_flat projected then ok (closing c existing projected a d none fill) else turned) in
      same_direction existing f >>= λ s. if s then same else against

  -- `_apply_weighted_average_fill`
  unfoldable pub apply_weighted_average_fill :
      ℤ → Option ℕ → Fill → Result PortfolioError WeightedAverage
  apply_weighted_average_fill existing average fill =
      let averaged : Result PortfolioError WeightedAverage = elim average [
        | none ↦ raise open_without_average
        | some a ↦ average_open existing a fill
      ] in
      if is_flat existing
      then ok (opening c (existing +ℤ signed_fill_quantity fill) (some fill.price) fill)
      else averaged
