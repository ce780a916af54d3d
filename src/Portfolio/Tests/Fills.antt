-- ===== src/Portfolio/Tests/Fills.antt =====
-- The theorems of positions and fills at a purchase and the sales after it.
use pmrp.Common.{ℕ, ◌*◌, ◌/◌, ◌≤◌, ◌≡◌, leb, if◌then◌else◌, refl, false, none, some, arith, keep_if}
use pmrp.Common.Fields.{is_empty}
use pmrp.Common.Int.{pos, negsuc, ◌+ℤ◌, ◌-ℤ◌, ◌*ℤ◌, neg_ℤ}
use pmrp.Common.Text.{Text, str}
use pmrp.Common.Result.{ok}
use pmrp.Simulation.MarketData.{buy, sell}
use pmrp.Portfolio.Decimals.{Context, round_ℤ}
use pmrp.Portfolio.Types.{Money, JournalEntry, Position, Fill}
use pmrp.Portfolio.Entry.{validate_journal_balance}
use pmrp.Portfolio.Balances.{
  account_cash, CashProjection, is_cash_line, apply_journal_to_cash_balance,
}
use pmrp.Portfolio.Balances.Movement.{IsBalance, cash_of}
use pmrp.Portfolio.Average.{
  sign, same_direction, WeightedAverage, average_open, apply_weighted_average_fill,
}
use pmrp.Portfolio.Average.Closing.{open_then_close}
use pmrp.Portfolio.Positions.{
  validate_money, zero_money, project_opened_at, make_position, fill_money, Existing,
  existing_state, PositionProjection, apply_fill_to_position,
}
use pmrp.Portfolio.Journal.{
  validate_nonnegative_money, validate_identity, validate_moneys, validate_amounts,
  validate_projection_for_fill, build_fill_journal_entry,
}
use pmrp.Portfolio.Journal.Posting.{build_fill_journal_entry_lem}
use pmrp.Portfolio.Accounting.{IsFill, account_fill}
use pmrp.Portfolio.Tests.{usd, wallet, wallet-IsBalance}

-- A purchase of 10 at 5 with a fee of 2 and no rebate.
abbrev bought : Fill
bought = record {
  fill_id = str "f1";
  exchange = str "kalshi";
  account_id = str "acc";
  market_id = str "m";
  contract_id = str "c";
  outcome_id = str "yes";
  side = buy;
  price = 5;
  quantity = 10;
  fee = some (record { amount = pos 2; currency = usd });
  rebate = none;
  exchange_occurred_at = 8;
}

-- A sale of 14 at 9, which closes the 10 and opens 4 short.
abbrev sold : Fill
sold = record bought {
  fill_id = str "f2";
  side = sell;
  price = 9;
  quantity = 14;
  fee = none;
  exchange_occurred_at = 11;
}

-- A context of three digits, which drops the last digit of a longer result.
abbrev shorten : ℕ → ℕ
shorten n = if leb n 1000 then n else n / 10 * 10

pub kept : (n : ℕ) → n ≤ 1000 → shorten n ≡ n
kept n h = ground (arith, h)

abbrev pub context : Context
context = record { round = shorten; divide = λ a b. a / b; limit = 1000; exact = kept }

flipped :
    apply_weighted_average_fill context (pos 10) (some 5) sold
    ≡ ok (record {
      quantity = negsuc 3;
      average_entry_price = some 9;
      realized_trading_pnl = pos 40;
      closed_quantity = 10;
      opened_quantity = 4;
      closed_cost_basis = 50;
      closed_trade_value = 90;
      opened_notional = 36;
    })
unfolding apply_weighted_average_fill average_open same_direction sign ◌+ℤ◌ ◌-ℤ◌ ◌*ℤ◌ neg_ℤ round_ℤ
flipped = refl

abbrev identity_digest : Text → Text → Text → Text → Text → Text
identity_digest a c e m o = a

abbrev pub id_digest : Text → Text
id_digest s = s

abbrev before_any : Existing
before_any = record {
  position_id = str "pos_acc";
  quantity = pos 0;
  average_entry_price = none;
  realized_pnl = pos 0;
  fees_paid = pos 0;
  rebates_received = pos 0;
  opened_at = none;
  last_updated_at = none;
  aggregate_version = 0;
}

bought-IsFill : IsFill bought usd (record { amount = pos 2; currency = usd }) (zero_money usd)
unfolding fill_money validate_money
bought-IsFill = record {
  positive = omega arith;
  exchange_fits = refl;
  id_fits = refl;
  in_currency = refl;
  fee_valid = refl;
  rebate_valid = refl;
}

account_fill_example :
    (r : PositionProjection) × (entry : JournalEntry) × (c : CashProjection)
    × (apply_fill_to_position context identity_digest none bought usd none ≡ ok r)
    × (build_fill_journal_entry context id_digest bought r (str "ev3") 8 ≡ ok entry)
    × (apply_journal_to_cash_balance account_cash wallet entry ≡ ok c)
    × (r.position.quantity ≡ pos 0 +ℤ pos 10)
    × IsBalance c.balance
    × (c.balance.available ≡ pos 900 +ℤ (neg_ℤ (pos 1) *ℤ pos 50 -ℤ pos 2 +ℤ pos 0))
unfolding existing_state
account_fill_example =
    account_fill context identity_digest id_digest none bought none
      (record { amount = pos 2; currency = usd }) (zero_money usd) before_any wallet (str "ev3") 8
      bought-IsFill tt refl wallet-IsBalance (omega arith) (omega arith) (omega arith)

-- The whole of the purchase is sold again, at 9.
abbrev resold : Fill
resold = record sold { quantity = 10 }

open_then_close_example :
    (w v : WeightedAverage) × (apply_weighted_average_fill context (pos 0) none bought ≡ ok w)
    × (apply_weighted_average_fill context w.quantity w.average_entry_price resold ≡ ok v)
    × (v.quantity ≡ pos 0)
    × (v.average_entry_price ≡ none)
    × (v.closed_quantity ≡ 10)
    × (v.opened_quantity ≡ 0)
    × (v.realized_trading_pnl ≡ pos 10 *ℤ (pos 9 -ℤ pos 5) *ℤ pos 1)
open_then_close_example =
    open_then_close context bought resold (omega arith) refl (omega arith) (omega arith)

abbrev pub usd_money : ℕ → Money
usd_money n = record { amount = pos n; currency = usd }

abbrev pub bought_position : Position
bought_position = record {
  position_id = str "pos_acc";
  exchange = str "kalshi";
  account_id = str "acc";
  market_id = str "m";
  contract_id = str "c";
  outcome_id = str "yes";
  quantity = pos 10;
  average_entry_price = some 5;
  realized_pnl = usd_money 0;
  unrealized_pnl = usd_money 0;
  fees_paid = usd_money 2;
  rebates_received = usd_money 0;
  opened_at = some 8;
  last_updated_at = 8;
  aggregate_version = 1;
}

abbrev bought_projection : PositionProjection
bought_projection = record {
  position = bought_position;
  realized_trading_pnl = usd_money 0;
  fee = usd_money 2;
  rebate = usd_money 0;
  trade_notional = usd_money 50;
  closed_quantity = pos 0;
  opened_quantity = pos 10;
  closed_cost_basis = usd_money 0;
  closed_trade_value = usd_money 0;
  opened_notional = usd_money 50;
}

projected_as_expected :
    apply_fill_to_position context identity_digest none bought usd none ≡ ok bought_projection
unfolding apply_fill_to_position fill_money validate_money existing_state
    apply_weighted_average_fill project_opened_at make_position ◌+ℤ◌
projected_as_expected = refl

build_fill_journal_entry_lem_example :
    (e : JournalEntry) × (build_fill_journal_entry context id_digest bought bought_projection
        (str "ev3")
        8
      ≡ ok e)
    × (validate_journal_balance e ≡ ok tt)
    × (e.occurred_at ≡ 8)
    × (is_empty (keep_if (is_cash_line account_cash usd) e.lines) ≡ false)
    × (cash_of account_cash usd e ≡ neg_ℤ (pos 1) *ℤ pos 50 -ℤ pos 2 +ℤ pos 0)
unfolding round_ℤ validate_projection_for_fill validate_identity validate_moneys validate_amounts
    validate_money validate_nonnegative_money ◌+ℤ◌ ◌-ℤ◌ ◌*ℤ◌ neg_ℤ
build_fill_journal_entry_lem_example =
    build_fill_journal_entry_lem context id_digest bought bought_projection (str "ev3") 8 refl refl
      refl (omega arith) (omega arith)
