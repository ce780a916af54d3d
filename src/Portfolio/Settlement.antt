-- ===== src/Portfolio/Settlement.antt =====
-- The settlement of a position and its corrections (portfolio/settlement.py). The context of
-- decimals and the digests of the identifiers are parameters.
pub mod Amounts
pub mod Lines
pub mod Applied
pub mod Once
pub mod Correction
pub mod Corrected
pub mod Replacement
use pmrp.Common.{
  ℕ, ◌+◌, Bool, true, false, not, ◌&&◌, ◌||◌, Option, none, some, List, [], ◌∷◌, ◌++◌, take, ltb,
  nat_eqb, if◌then◌else◌,
}
use pmrp.Common.Equality.{◌==◌}
use pmrp.Common.Fields.{is_none, is_currency}
use pmrp.Common.Int.{ℤ, pos, ◌+ℤ◌, ◌-ℤ◌, ◌*ℤ◌, neg_ℤ, abs_ℤ}
use pmrp.Common.Text.{Text, str, text_eq}
use pmrp.Common.Result.{Result, ok, raise, ◌>>=◌, ◌>>◌, raise_if}
use pmrp.Portfolio.Types.{
  PortfolioError, field_out_of_bounds, assertion_failed, status_not_allowed, settled_at_missing,
  payout_missing, position_flat, settlement_too_early, exchange_mismatch, account_mismatch,
  market_mismatch, currency_mismatch, open_without_average, Money, JournalLine, JournalEntry,
  CashBalance, Position, SettlementStatus, unresolved, pending_resolution, resolved, disputed,
  finalized, settled, corrected, Settlement,
}
use pmrp.Portfolio.Decimals.{Context, round_ℤ}
use pmrp.Portfolio.Entry.{make_entry}
use pmrp.Portfolio.Balances.{account_cash, mem, CashProjection, apply_journal_to_cash_balance}
use pmrp.Portfolio.Average.{is_flat}
use pmrp.Portfolio.Positions.{zero_money, make_position, validate_position_currency}
use pmrp.Portfolio.Journal.{account_position_cost, line, make_lines}

abbrev pub account_settlement_pnl : Text
account_settlement_pnl = str "settlement_pnl"

-- The place of a status in the enumeration, for its equality.
abbrev pub status_index : SettlementStatus → ℕ
status_index unresolved = 0
status_index pending_resolution = 1
status_index resolved = 2
status_index disputed = 3
status_index finalized = 4
status_index settled = 5
status_index corrected = 6

abbrev pub same_status : SettlementStatus → SettlementStatus → Bool
same_status a b = nat_eqb (status_index a) (status_index b)

-- `assert value is not None`
abbrev pub asserted : Option ℕ → Result PortfolioError ℕ
asserted none = raise assertion_failed
asserted (some n) = ok n

-- `SettlementAccountingResult`
pub record SettlementAccounting : Type 0 where
  pub cash_delta : Money
  pub position_cost_basis : Money
  pub settlement_pnl : Money
  pub settled_quantity : ℕ
  pub winning_position : Bool

-- `_validate_settlement_position`; every call allows one status.
unfoldable pub validate_settlement_position :
    Position → Settlement → Text → SettlementStatus → Result PortfolioError (Unit {0})
validate_settlement_position p s currency allowed = do
  raise_if (not (same_status s.status allowed)) status_not_allowed
  raise_if (is_none s.settled_at) settled_at_missing
  raise_if (is_none s.payout_per_unit) payout_missing
  raise_if (not (p.exchange == s.exchange)) exchange_mismatch
  raise_if (not (p.market_id == s.market_id)) market_mismatch
  raise_if (is_flat p.quantity) position_flat
  raise_if (is_none p.average_entry_price) open_without_average
  validate_position_currency p currency

-- The amounts of a settlement with an average price and a payout.
abbrev pub settlement_amounts :
    Context → Position → Settlement → Text → ℕ → ℕ → SettlementAccounting
settlement_amounts c p s currency average payout =
    let winning = mem p.outcome_id s.winning_outcome_ids in
    let cash = round_ℤ c (p.quantity *ℤ pos (if winning then payout else 0)) in
    let cost = round_ℤ c (p.quantity *ℤ pos average) in
    record {
      cash_delta = record { amount = cash; currency = currency };
      position_cost_basis = record { amount = cost; currency = currency };
      settlement_pnl = record { amount = round_ℤ c (cash -ℤ cost); currency = currency };
      settled_quantity = abs_ℤ p.quantity;
      winning_position = winning;
    }

-- `_build_settlement_accounting_result`
unfoldable pub settlement_accounting :
    Context
    → Position
    → Settlement
    → Text
    → SettlementStatus
    → Result PortfolioError SettlementAccounting
settlement_accounting c p s currency allowed = do
  validate_settlement_position p s currency allowed
  payout ← asserted s.payout_per_unit
  average ← asserted p.average_entry_price
  ok (settlement_amounts c p s currency average payout)

-- `build_settlement_accounting_result`
unfoldable pub build_settlement_accounting_result :
    Context → Position → Settlement → Text → Result PortfolioError SettlementAccounting
build_settlement_accounting_result c p s currency = do
  raise_if (not (is_currency currency)) field_out_of_bounds
  settlement_accounting c p s currency settled

-- The flat position that a settlement leaves, as the code passes it to its constructor.
abbrev pub settled_position : Position → ℤ → ℕ → Text → Position
settled_position p pnl settled_at currency = record p {
  quantity = pos 0;
  average_entry_price = none;
  realized_pnl = record { amount = p.realized_pnl.amount +ℤ pnl; currency = currency };
  unrealized_pnl = zero_money currency;
  opened_at = none;
  last_updated_at = settled_at;
  aggregate_version = p.aggregate_version + 1;
}

-- `SettlementPositionProjectionResult`
pub record SettlementProjection : Type 0 where
  pub position : Position
  pub settlement_accounting : SettlementAccounting

-- `apply_settlement_to_position`
unfoldable pub apply_settlement_to_position :
    Context → Position → Settlement → Text → Result PortfolioError SettlementProjection
apply_settlement_to_position c p s currency = do
  raise_if (not (is_currency currency)) field_out_of_bounds
  validate_settlement_position p s currency settled
  at ← asserted s.settled_at
  raise_if (ltb at p.last_updated_at) settlement_too_early
  a ← build_settlement_accounting_result c p s currency
  projected ← make_position (settled_position p a.settlement_pnl.amount at currency)
  ok (record { position = projected; settlement_accounting = a })

-- `_validate_cash_balance_for_position`
unfoldable pub validate_cash_balance_for_position :
    CashBalance → Position → Text → Result PortfolioError (Unit {0})
validate_cash_balance_for_position b p currency = do
  raise_if (not (b.exchange == p.exchange)) exchange_mismatch
  raise_if (not (b.account_id == p.account_id)) account_mismatch
  raise_if (not (b.currency == currency)) currency_mismatch

-- `SettlementApplicationResult`
pub record SettlementApplication : Type 0 where
  pub position : Position
  pub cash_balance : CashBalance
  pub position_projection : Option SettlementProjection
  pub cash_projection : Option CashProjection
  pub journal_entry : Option JournalEntry
  pub applied_journal_entry_ids : List Text
  pub applied : Bool
  pub duplicate_settlement : Bool

module _ (digest : Text → Text → Text) where
  -- `derive_settlement_journal_entry_id`
  abbrev pub derive_settlement_id : Position → Settlement → Text
  derive_settlement_id p s =
      str "journal_settlement_" ++ take 32 (digest p.position_id s.settlement_id)

module _ (c : Context) (digest : Text → Text → Text) where
  -- `build_settlement_journal_entry`
  unfoldable pub build_settlement_journal_entry :
      Position → Settlement → Text → Text → ℕ → Result PortfolioError JournalEntry
  build_settlement_journal_entry p s currency source created_at = do
    r ← build_settlement_accounting_result c p s currency
    at ← asserted s.settled_at
    lines ← make_lines (
        line account_cash r.cash_delta.amount r.cash_delta.currency
          (str "Settlement cash movement.")
        ∷ line account_position_cost (neg_ℤ r.position_cost_basis.amount)
            r.position_cost_basis.currency (str "Settlement clears position cost basis.")
        ∷ line account_settlement_pnl (neg_ℤ r.settlement_pnl.amount) r.settlement_pnl.currency
            (str "Settlement PnL offset.")
        ∷ [])
    make_entry (record {
      journal_entry_id = derive_settlement_id digest p s;
      occurred_at = at;
      source_event_id = source;
      reference_type = str "settlement";
      reference_id = s.settlement_id;
      lines = lines;
      description = str "Settlement accounting for " ++ p.position_id ++ str ".";
      created_at = created_at;
    })

  -- `apply_settlement_once`
  unfoldable pub apply_settlement_once :
      Position
      → CashBalance
      → Settlement
      → List Text
      → Text
      → Text
      → ℕ
      → Result PortfolioError SettlementApplication
  apply_settlement_once p b s ids currency source created_at =
      let id = derive_settlement_id digest p s in
      let fresh =
        (apply_settlement_to_position c p s currency >>= λ projection.
        build_settlement_journal_entry p s currency source created_at >>= λ e.
        apply_journal_to_cash_balance account_cash b e >>= λ cash. ok (record {
          position = projection.position;
          cash_balance = cash.balance;
          position_projection = some projection;
          cash_projection = some cash;
          journal_entry = some e;
          applied_journal_entry_ids = id ∷ ids;
          applied = true;
          duplicate_settlement = false;
        })) in
      raise_if (not (is_currency currency)) field_out_of_bounds
      >> validate_cash_balance_for_position b p currency
      >> (if mem id ids
          then ok (record {
            position = p;
            cash_balance = b;
            position_projection = none;
            cash_projection = none;
            journal_entry = none;
            applied_journal_entry_ids = ids;
            applied = false;
            duplicate_settlement = true;
          })
          else fresh)
