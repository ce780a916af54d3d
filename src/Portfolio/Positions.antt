-- ===== src/Portfolio/Positions.antt =====
-- The projection of one fill on a position by weighted-average cost (portfolio/positions.py). The
-- context of decimals and the digest of a position's identity are parameters.
pub mod Projection
use pmrp.Common.{
  ℕ, ◌+◌, ◌-◌, ◌*◌, min, Bool, true, false, not, ◌&&◌, ◌||◌, Option, none, some, ◌++◌, take, ltb,
  leb, if◌then◌else◌,
}
use pmrp.Common.Equality.{◌==◌}
use pmrp.Common.Fields.{is_bad_length, is_none, is_empty, is_currency}
use pmrp.Common.Int.{ℤ, pos, negsuc, ◌+ℤ◌, ◌-ℤ◌, ◌*ℤ◌, neg_ℤ, abs_ℤ, eqb_ℤ, ltb_ℤ}
use pmrp.Common.Text.{Text, str, text_eq}
use pmrp.Common.Result.{Result, ok, raise, ◌>>=◌, ◌>>◌, raise_if}
use pmrp.Portfolio.Decimals.{Context}
use pmrp.Portfolio.Average.{is_flat, same_direction, WeightedAverage, apply_weighted_average_fill}
use pmrp.Portfolio.Types.{
  PortfolioError, field_out_of_bounds, updated_too_early, negative_fees, negative_rebates,
  position_mismatch, exchange_mismatch, account_mismatch, market_mismatch, contract_mismatch,
  outcome_mismatch, flat_with_average, open_without_average, currency_mismatch, fill_too_old,
  negative_amount, zero_direction, Money, Position, Fill,
}

-- `max`, on times.
abbrev pub later : ℕ → ℕ → ℕ
later a b = if leb a b then b else a

abbrev pub earlier : ℕ → ℕ → ℕ
earlier a b = if leb a b then a else b

abbrev pub zero_money : Text → Money
zero_money currency = record { amount = pos 0; currency = currency }

-- The constructor of `Position`, with `validate_position_state`.
abbrev pub opened_after : Option ℕ → ℕ → Bool
opened_after none t = false
opened_after (some u) t = ltb t u

unfoldable pub make_position : Position → Result PortfolioError Position
make_position p = do
  raise_if (is_bad_length 64 p.exchange) field_out_of_bounds
  raise_if (opened_after p.opened_at p.last_updated_at) updated_too_early
  raise_if (ltb_ℤ p.fees_paid.amount (pos 0)) negative_fees
  raise_if (ltb_ℤ p.rebates_received.amount (pos 0)) negative_rebates
  ok p

-- `_validate_money`
unfoldable pub validate_money : Money → Text → Result PortfolioError (Unit {0})
validate_money m currency = raise_if (not (m.currency == currency)) currency_mismatch

-- `_fill_money`
unfoldable pub fill_money : Option Money → Text → Result PortfolioError Money
fill_money none currency = ok (zero_money currency)
fill_money (some m) currency = do
  validate_money m currency
  raise_if (ltb_ℤ m.amount (pos 0)) negative_amount
  ok m

-- `_validate_existing_position`, in three parts: the identity, the average and the currencies.
unfoldable pub validate_position_identity :
    Position → Fill → Option Text → Result PortfolioError (Unit {0})
validate_position_identity p fill position_id = do
  raise_if (elim position_id [ none ↦ false | some id ↦ not (p.position_id == id) ])
      position_mismatch
  raise_if (not (p.exchange == fill.exchange)) exchange_mismatch
  raise_if (not (p.account_id == fill.account_id)) account_mismatch
  raise_if (not (p.market_id == fill.market_id)) market_mismatch
  raise_if (not (p.contract_id == fill.contract_id)) contract_mismatch
  raise_if (not (p.outcome_id == fill.outcome_id)) outcome_mismatch

unfoldable pub validate_position_average : Position → Result PortfolioError (Unit {0})
validate_position_average p = do
  raise_if (is_flat p.quantity && not (is_none p.average_entry_price)) flat_with_average
  raise_if (not (is_flat p.quantity) && is_none p.average_entry_price) open_without_average

unfoldable pub validate_position_currency : Position → Text → Result PortfolioError (Unit {0})
validate_position_currency p currency = do
  validate_money p.realized_pnl currency
  validate_money p.unrealized_pnl currency
  validate_money p.fees_paid currency
  validate_money p.rebates_received currency

unfoldable pub validate_existing_position :
    Position → Fill → Text → Option Text → Result PortfolioError (Unit {0})
validate_existing_position p fill currency position_id = do
  validate_position_identity p fill position_id
  validate_position_average p
  validate_position_currency p currency

-- `_validate_fill_order`
unfoldable pub validate_fill_order : ℕ → Fill → Result PortfolioError (Unit {0})
validate_fill_order last fill = raise_if (ltb fill.exchange_occurred_at last) fill_too_old

-- `_project_opened_at`
unfoldable pub project_opened_at : ℤ → ℤ → Option ℕ → Fill → Result PortfolioError (Option ℕ)
project_opened_at existing projected none fill =
    ok (if is_flat projected then none else some fill.exchange_occurred_at)
project_opened_at existing projected (some u) fill =
    let t = fill.exchange_occurred_at in
    let kept =
      (same_direction existing projected >>= λ same. ok (some (if same then earlier u t else t))) in
    if is_flat projected then ok none else if is_flat existing then ok (some t) else kept

-- `_project_updated_at`
abbrev pub project_updated_at : Option ℕ → Fill → ℕ
project_updated_at none fill = fill.exchange_occurred_at
project_updated_at (some u) fill = later u fill.exchange_occurred_at

-- What `apply_fill_to_position` reads of the position before the fill.
pub record Existing : Type 0 where
  pub position_id : Text
  pub quantity : ℤ
  pub average_entry_price : Option ℕ
  pub realized_pnl : ℤ
  pub fees_paid : ℤ
  pub rebates_received : ℤ
  pub opened_at : Option ℕ
  pub last_updated_at : Option ℕ
  pub aggregate_version : ℕ

-- `PositionProjectionResult`
pub record PositionProjection : Type 0 where
  pub position : Position
  pub realized_trading_pnl : Money
  pub fee : Money
  pub rebate : Money
  pub trade_notional : Money
  pub closed_quantity : ℤ
  pub opened_quantity : ℤ
  pub closed_cost_basis : Money
  pub closed_trade_value : Money
  pub opened_notional : Money

module _ (digest : Text → Text → Text → Text → Text → Text) where
  -- `derive_position_id`
  abbrev pub derive_position_id : Fill → Text
  derive_position_id fill =
      str "pos_"
      ++ take 32
          (digest fill.account_id fill.contract_id fill.exchange fill.market_id fill.outcome_id)

  -- The state before the fill: of no position, or of one that passes its guards.
  unfoldable pub existing_state :
      Option Position → Fill → Text → Option Text → Result PortfolioError Existing
  existing_state none fill currency position_id = ok (record {
    position_id = elim position_id [
      | none ↦ derive_position_id fill
      | some id ↦ if is_empty id then derive_position_id fill else id
    ];
    quantity = pos 0;
    average_entry_price = none;
    realized_pnl = pos 0;
    fees_paid = pos 0;
    rebates_received = pos 0;
    opened_at = none;
    last_updated_at = none;
    aggregate_version = 0;
  })
  existing_state (some p) fill currency position_id = do
    validate_existing_position p fill currency position_id
    validate_fill_order p.last_updated_at fill
    ok (record {
      position_id = p.position_id;
      quantity = p.quantity;
      average_entry_price = p.average_entry_price;
      realized_pnl = p.realized_pnl.amount;
      fees_paid = p.fees_paid.amount;
      rebates_received = p.rebates_received.amount;
      opened_at = p.opened_at;
      last_updated_at = some p.last_updated_at;
      aggregate_version = p.aggregate_version;
    })

-- The position after the fill, as the code passes it to its constructor.
abbrev pub projected_position :
    Existing → WeightedAverage → Option ℕ → Fill → Text → Money → Money → Position
projected_position e w opened_at fill currency fee rebate = record {
  position_id = e.position_id;
  exchange = fill.exchange;
  account_id = fill.account_id;
  market_id = fill.market_id;
  contract_id = fill.contract_id;
  outcome_id = fill.outcome_id;
  quantity = w.quantity;
  average_entry_price = w.average_entry_price;
  realized_pnl = record { amount = e.realized_pnl +ℤ w.realized_trading_pnl; currency = currency };
  unrealized_pnl = zero_money currency;
  fees_paid = record { amount = e.fees_paid +ℤ fee.amount; currency = currency };
  rebates_received = record { amount = e.rebates_received +ℤ rebate.amount; currency = currency };
  opened_at = opened_at;
  last_updated_at = project_updated_at e.last_updated_at fill;
  aggregate_version = e.aggregate_version + 1;
}

abbrev pub projection_of :
    Context → WeightedAverage → Position → Fill → Text → Money → Money → PositionProjection
projection_of c w p fill currency fee rebate = record {
  position = p;
  realized_trading_pnl = record { amount = w.realized_trading_pnl; currency = currency };
  fee = fee;
  rebate = rebate;
  trade_notional = record {
    amount = pos (c.round (fill.quantity * fill.price));
    currency = currency;
  };
  closed_quantity = pos w.closed_quantity;
  opened_quantity = pos w.opened_quantity;
  closed_cost_basis = record { amount = pos w.closed_cost_basis; currency = currency };
  closed_trade_value = record { amount = pos w.closed_trade_value; currency = currency };
  opened_notional = record { amount = pos w.opened_notional; currency = currency };
}

module _ (c : Context) (digest : Text → Text → Text → Text → Text → Text) where
  -- `apply_fill_to_position`
  unfoldable pub apply_fill_to_position :
      Option Position → Fill → Text → Option Text → Result PortfolioError PositionProjection
  apply_fill_to_position position fill currency position_id = do
    raise_if (not (is_currency currency)) field_out_of_bounds
    fee ← fill_money fill.fee currency
    rebate ← fill_money fill.rebate currency
    e ← existing_state digest position fill currency position_id
    w ← apply_weighted_average_fill c e.quantity e.average_entry_price fill
    opened_at ← project_opened_at e.quantity w.quantity e.opened_at fill
    p ← make_position (projected_position e w opened_at fill currency fee rebate)
    ok (projection_of c w p fill currency fee rebate)
