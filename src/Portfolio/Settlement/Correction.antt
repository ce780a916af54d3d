-- ===== src/Portfolio/Settlement/Correction.antt =====
-- The correction of an applied settlement (portfolio/settlement.py).
use pmrp.Common.{
  Bool, true, false, not, ℕ, Option, none, some, List, [], ◌∷◌, ◌++◌, take, ltb, if◌then◌else◌,
}
use pmrp.Common.Equality.{◌==◌}
use pmrp.Common.Fields.{is_none, is_currency}
use pmrp.Common.Int.{◌-ℤ◌, neg_ℤ}
use pmrp.Common.Text.{Text, str, text_eq}
use pmrp.Common.Result.{Result, ok, ◌>>=◌, ◌>>◌, raise_if}
use pmrp.Portfolio.Types.{
  PortfolioError, field_out_of_bounds, correction_status, correction_reference, position_mismatch,
  exchange_mismatch, account_mismatch, market_mismatch, contract_mismatch, outcome_mismatch,
  position_not_flat, flat_with_average, settlement_too_early, Money, JournalEntry, CashBalance,
  Position, settled, corrected, Settlement,
}
use pmrp.Portfolio.Decimals.{Context, round_ℤ}
use pmrp.Portfolio.Entry.{make_entry}
use pmrp.Portfolio.Balances.{account_cash, mem, CashProjection, apply_journal_to_cash_balance}
use pmrp.Portfolio.Average.{is_flat}
use pmrp.Portfolio.Positions.{make_position, validate_position_currency}
use pmrp.Portfolio.Journal.{account_position_cost, line, make_lines}
use pmrp.Portfolio.Settlement.{
  account_settlement_pnl, same_status, asserted, SettlementAccounting, validate_settlement_position,
  settlement_accounting, settled_position, validate_cash_balance_for_position,
}

-- `SettlementCorrectionAccountingResult`
pub record CorrectionAccounting : Type 0 where
  pub previous_accounting : SettlementAccounting
  pub corrected_accounting : SettlementAccounting
  pub cash_delta : Money
  pub position_cost_basis_delta : Money
  pub settlement_pnl_delta : Money

-- `_validate_corrected_settlement`
unfoldable pub validate_corrected_settlement :
    Position → Settlement → Settlement → Text → Result PortfolioError (Unit {0})
validate_corrected_settlement original previous s currency = do
  raise_if (not (same_status s.status corrected)) correction_status
  raise_if
      (elim s.correction_of_settlement_id [
        | none ↦ true
        | some id ↦ not (id == previous.settlement_id)
      ])
      correction_reference
  validate_settlement_position original previous currency settled
  validate_settlement_position original s currency corrected

-- The differences of two accountings.
abbrev pub correction_amounts :
    Context → SettlementAccounting → SettlementAccounting → Text → CorrectionAccounting
correction_amounts c before after currency = record {
  previous_accounting = before;
  corrected_accounting = after;
  cash_delta = record {
    amount = round_ℤ c (after.cash_delta.amount -ℤ before.cash_delta.amount);
    currency = currency;
  };
  position_cost_basis_delta = record {
    amount = round_ℤ c (after.position_cost_basis.amount -ℤ before.position_cost_basis.amount);
    currency = currency;
  };
  settlement_pnl_delta = record {
    amount = round_ℤ c (after.settlement_pnl.amount -ℤ before.settlement_pnl.amount);
    currency = currency;
  };
}

-- `build_settlement_correction_accounting_result`
unfoldable pub build_correction_accounting :
    Context → Position → Settlement → Settlement → Text → Result PortfolioError CorrectionAccounting
build_correction_accounting c original previous s currency = do
  raise_if (not (is_currency currency)) field_out_of_bounds
  validate_corrected_settlement original previous s currency
  before ← settlement_accounting c original previous currency settled
  after ← settlement_accounting c original s currency corrected
  ok (correction_amounts c before after currency)

-- `_validate_position_identity`, of the settlement
unfoldable pub validate_same_identity : Position → Position → Result PortfolioError (Unit {0})
validate_same_identity original flat = do
  raise_if (not (original.position_id == flat.position_id)) position_mismatch
  raise_if (not (original.exchange == flat.exchange)) exchange_mismatch
  raise_if (not (original.account_id == flat.account_id)) account_mismatch
  raise_if (not (original.market_id == flat.market_id)) market_mismatch
  raise_if (not (original.contract_id == flat.contract_id)) contract_mismatch
  raise_if (not (original.outcome_id == flat.outcome_id)) outcome_mismatch

-- `_validate_settlement_correction_identity`
unfoldable pub validate_settlement_correction_identity :
    Position
    → Position
    → CashBalance
    → Settlement
    → Settlement
    → Text
    → Result PortfolioError (Unit {0})
validate_settlement_correction_identity original flat b previous s currency = do
  validate_cash_balance_for_position b flat currency
  validate_corrected_settlement original previous s currency
  validate_same_identity original flat
  raise_if (not (is_flat flat.quantity)) position_not_flat
  raise_if (not (is_none flat.average_entry_price)) flat_with_average
  validate_position_currency flat currency

-- `_validate_settlement_correction_application`
unfoldable pub validate_settlement_correction_application :
    Position → Settlement → Result PortfolioError (Unit {0})
validate_settlement_correction_application flat s = do
  at ← asserted s.settled_at
  raise_if (ltb at flat.last_updated_at) settlement_too_early

-- `SettlementCorrectionApplicationResult`
pub record CorrectionApplication : Type 0 where
  pub position : Position
  pub cash_balance : CashBalance
  pub correction_accounting : Option CorrectionAccounting
  pub cash_projection : Option CashProjection
  pub journal_entry : Option JournalEntry
  pub applied_journal_entry_ids : List Text
  pub applied : Bool
  pub duplicate_correction : Bool

module _ (digest : Text → Text → Text → Text) where
  -- `derive_settlement_correction_journal_entry_id`
  abbrev pub derive_settlement_correction_id : Position → Settlement → Settlement → Text
  derive_settlement_correction_id original previous s =
      str "journal_settlement_correction_"
      ++ take 32 (digest s.settlement_id original.position_id previous.settlement_id)

module _ (c : Context) (digest : Text → Text → Text → Text) where
  -- `build_settlement_correction_journal_entry`
  unfoldable pub build_settlement_correction_entry :
      Position → Settlement → Settlement → Text → Text → ℕ → Result PortfolioError JournalEntry
  build_settlement_correction_entry original previous s currency source created_at = do
    r ← build_correction_accounting c original previous s currency
    at ← asserted s.settled_at
    lines ← make_lines (
        line account_cash r.cash_delta.amount r.cash_delta.currency
          (str "Settlement correction cash delta.")
        ∷ line account_position_cost (neg_ℤ r.position_cost_basis_delta.amount)
            r.position_cost_basis_delta.currency (str "Settlement correction position cost delta.")
        ∷ line account_settlement_pnl (neg_ℤ r.settlement_pnl_delta.amount)
            r.settlement_pnl_delta.currency (str "Settlement correction PnL delta.")
        ∷ [])
    make_entry (record {
      journal_entry_id = derive_settlement_correction_id digest original previous s;
      occurred_at = at;
      source_event_id = source;
      reference_type = str "settlement";
      reference_id = s.settlement_id;
      lines = lines;
      description =
          str "Settlement correction accounting for "
          ++ (original.position_id ++ (str " replacing " ++ (previous.settlement_id ++ str ".")));
      created_at = created_at;
    })

  -- `apply_settlement_correction_once`
  unfoldable pub apply_settlement_correction_once :
      Position
      → Position
      → CashBalance
      → Settlement
      → Settlement
      → List Text
      → Text
      → Text
      → ℕ
      → Result PortfolioError CorrectionApplication
  apply_settlement_correction_once original flat b previous s ids currency source created_at =
      let id = derive_settlement_correction_id digest original previous s in
      let fresh =
        (validate_settlement_correction_application flat s
          >> (build_correction_accounting c original previous s currency >>= λ a.
              build_settlement_correction_entry original previous s currency source created_at
              >>= λ e. apply_journal_to_cash_balance account_cash b e >>= λ cash.
                  asserted s.settled_at >>= λ at.
                  make_position (settled_position flat a.settlement_pnl_delta.amount at currency)
                  >>= λ p. ok (record {
                    position = p;
                    cash_balance = cash.balance;
                    correction_accounting = some a;
                    cash_projection = some cash;
                    journal_entry = some e;
                    applied_journal_entry_ids = id ∷ ids;
                    applied = true;
                    duplicate_correction = false;
                  }))) in
      raise_if (not (is_currency currency)) field_out_of_bounds
      >> validate_settlement_correction_identity original flat b previous s currency
      >> (if mem id ids
          then ok (record {
            position = flat;
            cash_balance = b;
            correction_accounting = none;
            cash_projection = none;
            journal_entry = none;
            applied_journal_entry_ids = ids;
            applied = false;
            duplicate_correction = true;
          })
          else fresh)
