-- ===== src/Portfolio/Journal.antt =====
-- The journal entry of one fill (portfolio/journal.py). The context of decimals and the
-- digest of a fill's identifier are parameters.
pub mod Accepted
pub mod Matching
pub mod Balanced
pub mod Posting
use pmrp.Common.{
  ℕ, ◌+◌, ◌*◌, Bool, true, false, not, ◌&&◌, ◌||◌, Option, none, some, List, [], ◌∷◌, ◌++◌, take,
  if◌then◌else◌,
}
use pmrp.Common.Equality.{◌==◌}
use pmrp.Common.Int.{ℤ, pos, negsuc, ◌+ℤ◌, ◌-ℤ◌, ◌*ℤ◌, neg_ℤ, eqb_ℤ, ltb_ℤ}
use pmrp.Common.Text.{Text, str, text_eq}
use pmrp.Common.Result.{Result, ok, raise, ◌>>=◌, ◌>>◌, raise_if}
use pmrp.Portfolio.Types.{
  PortfolioError, exchange_mismatch, account_mismatch, market_mismatch, contract_mismatch,
  outcome_mismatch, currency_mismatch, negative_amount, notional_mismatch, fee_mismatch,
  rebate_mismatch, negative_quantity, quantity_mismatch, closed_value_mismatch,
  opened_value_mismatch, realized_mismatch, Money, JournalLine, JournalEntry, Fill,
}
use pmrp.Portfolio.Entry.{make_line, make_entry}
use pmrp.Portfolio.Balances.{account_cash}
use pmrp.Portfolio.Decimals.{Context, round_ℤ}
use pmrp.Portfolio.Average.{fill_direction}
use pmrp.Portfolio.Positions.{PositionProjection, zero_money, validate_money}

abbrev pub account_position_cost : Text
account_position_cost = str "position_cost"

abbrev pub account_realized_trading_pnl : Text
account_realized_trading_pnl = str "realized_trading_pnl"

abbrev pub account_fees_paid : Text
account_fees_paid = str "fees_paid"

abbrev pub account_rebates_received : Text
account_rebates_received = str "rebates_received"

-- `!=` of two amounts of money
abbrev pub money_eqb : Money → Money → Bool
money_eqb a b = eqb_ℤ a.amount b.amount && a.currency == b.currency

-- `_fill_money`, of the journal
abbrev pub expected_money : Option Money → Text → Money
expected_money none currency = zero_money currency
expected_money (some m) currency = m

-- `_validate_nonnegative_money`
unfoldable pub validate_nonnegative_money : Money → Result PortfolioError (Unit {0})
validate_nonnegative_money m = raise_if (ltb_ℤ m.amount (pos 0)) negative_amount

-- `_validate_projection_for_fill`, in three parts: the identity, the currencies and signs, and the
-- amounts.
unfoldable pub validate_identity : Fill → PositionProjection → Result PortfolioError (Unit {0})
validate_identity fill r = do
  raise_if (not (r.position.exchange == fill.exchange)) exchange_mismatch
  raise_if (not (r.position.account_id == fill.account_id)) account_mismatch
  raise_if (not (r.position.market_id == fill.market_id)) market_mismatch
  raise_if (not (r.position.contract_id == fill.contract_id)) contract_mismatch
  raise_if (not (r.position.outcome_id == fill.outcome_id)) outcome_mismatch

unfoldable pub validate_moneys : PositionProjection → Result PortfolioError (Unit {0})
validate_moneys r = do
  let currency = r.trade_notional.currency
  validate_money r.realized_trading_pnl currency
  validate_money r.fee currency
  validate_money r.rebate currency
  validate_money r.closed_cost_basis currency
  validate_money r.closed_trade_value currency
  validate_money r.opened_notional currency
  validate_nonnegative_money r.trade_notional
  validate_nonnegative_money r.fee
  validate_nonnegative_money r.rebate
  validate_nonnegative_money r.closed_cost_basis
  validate_nonnegative_money r.closed_trade_value
  validate_nonnegative_money r.opened_notional

-- `expected_realized`
abbrev pub expected_realized : Context → Fill → PositionProjection → ℤ
expected_realized c fill r =
    round_ℤ c (r.closed_trade_value.amount -ℤ r.closed_cost_basis.amount)
    *ℤ neg_ℤ (fill_direction fill)

unfoldable pub validate_amounts :
    Context → Fill → PositionProjection → Result PortfolioError (Unit {0})
validate_amounts c fill r = do
  let currency = r.trade_notional.currency
  raise_if (not (eqb_ℤ r.trade_notional.amount (pos (c.round (fill.quantity * fill.price)))))
      notional_mismatch
  raise_if (not (money_eqb r.fee (expected_money fill.fee currency))) fee_mismatch
  raise_if (not (money_eqb r.rebate (expected_money fill.rebate currency))) rebate_mismatch
  raise_if (ltb_ℤ r.closed_quantity (pos 0) || ltb_ℤ r.opened_quantity (pos 0)) negative_quantity
  raise_if (not (eqb_ℤ (r.closed_quantity +ℤ r.opened_quantity) (pos fill.quantity)))
      quantity_mismatch
  raise_if
      (not (eqb_ℤ r.closed_trade_value.amount (round_ℤ c (r.closed_quantity *ℤ pos fill.price))))
      closed_value_mismatch
  raise_if (not (eqb_ℤ r.opened_notional.amount (round_ℤ c (r.opened_quantity *ℤ pos fill.price))))
      opened_value_mismatch
  raise_if (not (eqb_ℤ r.realized_trading_pnl.amount (expected_realized c fill r)))
      realized_mismatch

unfoldable pub validate_projection_for_fill :
    Context → Fill → PositionProjection → Result PortfolioError (Unit {0})
validate_projection_for_fill c fill r = do
  validate_identity fill r
  validate_moneys r
  validate_amounts c fill r

abbrev pub line : Text → ℤ → Text → Text → JournalLine
line code amount currency description = record {
  account_code = code;
  amount = amount;
  currency = currency;
  description = some description;
}

-- The lines of `build_fill_journal_entry`, as the code passes them to their constructors.
abbrev pub closed_lines : ℤ → PositionProjection → List JournalLine
closed_lines d r =
    if ltb_ℤ (pos 0) r.closed_quantity
    then line account_position_cost (neg_ℤ (neg_ℤ d *ℤ r.closed_cost_basis.amount))
        r.trade_notional.currency (str "Closed position cost basis.")
      ∷ line account_realized_trading_pnl (neg_ℤ r.realized_trading_pnl.amount)
          r.trade_notional.currency (str "Realized trading PnL offset.")
      ∷ []
    else []

abbrev pub opened_lines : ℤ → PositionProjection → List JournalLine
opened_lines d r =
    if ltb_ℤ (pos 0) r.opened_quantity
    then line account_position_cost (d *ℤ r.opened_notional.amount) r.trade_notional.currency
        (str "Opened position notional.")
      ∷ []
    else []

abbrev pub fee_lines : PositionProjection → List JournalLine
fee_lines r =
    if ltb_ℤ (pos 0) r.fee.amount
    then line account_cash (neg_ℤ r.fee.amount) r.trade_notional.currency (str "Fee cash movement.")
      ∷ line account_fees_paid r.fee.amount r.trade_notional.currency (str "Fee expense.")
      ∷ []
    else []

abbrev pub rebate_lines : PositionProjection → List JournalLine
rebate_lines r =
    if ltb_ℤ (pos 0) r.rebate.amount
    then line account_cash r.rebate.amount r.trade_notional.currency (str "Rebate cash movement.")
      ∷ line account_rebates_received (neg_ℤ r.rebate.amount) r.trade_notional.currency
          (str "Rebate income.")
      ∷ []
    else []

abbrev pub fill_lines : ℤ → PositionProjection → List JournalLine
fill_lines d r =
    line account_cash (neg_ℤ d *ℤ r.trade_notional.amount) r.trade_notional.currency
        (str "Trade cash movement.")
      ∷ closed_lines d r
    ++ opened_lines d r
    ++ fee_lines r
    ++ rebate_lines r

-- Each line through its constructor.
unfoldable pub make_lines : List JournalLine → Result PortfolioError (List JournalLine)
make_lines [] = ok []
make_lines (l ∷ ls) = make_line l >>= λ l'. make_lines ls >>= λ ls'. ok (l' ∷ ls')

module _ (digest : Text → Text) where
  -- `derive_fill_journal_entry_id`
  abbrev pub derive_fill_journal_entry_id : Fill → Text
  derive_fill_journal_entry_id fill = str "journal_fill_" ++ take 32 (digest fill.fill_id)

  abbrev pub fill_entry : Fill → List JournalLine → Text → ℕ → JournalEntry
  fill_entry fill lines source created_at = record {
    journal_entry_id = derive_fill_journal_entry_id fill;
    occurred_at = fill.exchange_occurred_at;
    source_event_id = source;
    reference_type = str "fill";
    reference_id = fill.fill_id;
    lines = lines;
    description = str "Fill accounting for " ++ fill.fill_id ++ str ".";
    created_at = created_at;
  }

module _ (c : Context) (digest : Text → Text) where
  -- `build_fill_journal_entry`
  unfoldable pub build_fill_journal_entry :
      Fill → PositionProjection → Text → ℕ → Result PortfolioError JournalEntry
  build_fill_journal_entry fill r source created_at = do
    validate_projection_for_fill c fill r
    lines ← make_lines (fill_lines (fill_direction fill) r)
    make_entry (fill_entry digest fill lines source created_at)
