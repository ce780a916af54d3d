-- ===== src/Portfolio/Types.antt =====
-- Canonical accounting records (schemas/portfolio.py, schemas/numeric.py, schemas/orders.py).
-- Quantities are numbers of a fixed unit, prices of another, and amounts of money of the product
-- of the two.
use pmrp.Common.{ℕ, Option, List}
use pmrp.Common.Int.{ℤ}
use pmrp.Common.Text.{Text}
use pmrp.Simulation.MarketData.{Side}

-- What the constructors and the projections raise, by message.
pub data PortfolioError : Type 0 where
  field_out_of_bounds : PortfolioError
  no_lines created_too_early unbalanced : PortfolioError
  balance_identity updated_too_early negative_fees negative_rebates : PortfolioError
  entry_too_early account_code_invalid cash_line_missing : PortfolioError
  reference_missing balance_mismatch exchange_mismatch account_mismatch currency_mismatch :
      PortfolioError
  observed_too_early reserved_changed no_cash_delta : PortfolioError
  position_mismatch market_mismatch contract_mismatch outcome_mismatch : PortfolioError
  flat_with_average open_without_average : PortfolioError
  fill_too_old negative_amount zero_direction : PortfolioError
  notional_mismatch fee_mismatch rebate_mismatch : PortfolioError
  negative_quantity quantity_mismatch closed_value_mismatch opened_value_mismatch : PortfolioError
  realized_mismatch : PortfolioError
  assertion_failed : PortfolioError
  status_not_allowed settled_at_missing payout_missing position_flat : PortfolioError
  settlement_too_early correction_status correction_reference position_not_flat : PortfolioError
  transfer_id_invalid same_balance amount_not_positive account_code_too_long : PortfolioError

pub record Money : Type 0 where
  pub amount : ℤ
  pub currency : Text

pub record JournalLine : Type 0 where
  pub account_code : Text
  pub amount : ℤ
  pub currency : Text
  pub description : Option Text

-- `AccountingJournalEntry`
pub record JournalEntry : Type 0 where
  pub journal_entry_id : Text
  pub occurred_at : ℕ
  pub source_event_id : Text
  pub reference_type : Text
  pub reference_id : Text
  pub lines : List JournalLine
  pub description : Text
  pub created_at : ℕ

pub record CashBalance : Type 0 where
  pub balance_id : Text
  pub exchange : Text
  pub account_id : Text
  pub currency : Text
  pub available : ℤ
  pub reserved : ℤ
  pub total : ℤ
  pub captured_at : ℕ

pub record Position : Type 0 where
  pub position_id : Text
  pub exchange : Text
  pub account_id : Text
  pub market_id : Text
  pub contract_id : Text
  pub outcome_id : Text
  pub quantity : ℤ
  pub average_entry_price : Option ℕ
  pub realized_pnl : Money
  pub unrealized_pnl : Money
  pub fees_paid : Money
  pub rebates_received : Money
  pub opened_at : Option ℕ
  pub last_updated_at : ℕ
  pub aggregate_version : ℕ

pub data SettlementStatus : Type 0 where
  unresolved pending_resolution resolved disputed finalized settled corrected : SettlementStatus

pub record Settlement : Type 0 where
  pub settlement_id : Text
  pub market_id : Text
  pub exchange : Text
  pub status : SettlementStatus
  pub winning_outcome_ids : List Text
  pub settled_at : Option ℕ
  pub payout_per_unit : Option ℕ
  pub correction_of_settlement_id : Option Text

-- What the accounting reads of a `Fill`; its quantity is positive.
pub record Fill : Type 0 where
  pub fill_id : Text
  pub exchange : Text
  pub account_id : Text
  pub market_id : Text
  pub contract_id : Text
  pub outcome_id : Text
  pub side : Side
  pub price : ℕ
  pub quantity : ℕ
  pub fee : Option Money
  pub rebate : Option Money
  pub exchange_occurred_at : ℕ
