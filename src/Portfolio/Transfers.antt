-- ===== src/Portfolio/Transfers.antt =====
-- Transfers of cash between two balances (portfolio/transfers.py). The digest of a transfer's
-- identifier is a parameter.
pub mod Guards
pub mod Conservation
use pmrp.Common.{
  ℕ, Bool, true, false, not, ◌||◌, Option, none, some, List, [], ◌∷◌, ◌++◌, take, length, ltb,
  if◌then◌else◌,
}
use pmrp.Common.Equality.{◌==◌}
use pmrp.Common.Fields.{is_currency}
use pmrp.Common.Int.{ℤ, pos, neg_ℤ, leb_ℤ}
use pmrp.Common.Text.{Text, str, text_eq, is_blank_or_padded}
use pmrp.Common.Result.{Result, ok, raise, ◌>>=◌, ◌>>◌, raise_if}
use pmrp.Portfolio.Types.{
  PortfolioError, field_out_of_bounds, transfer_id_invalid, same_balance, currency_mismatch,
  amount_not_positive, account_code_too_long, Money, JournalLine, JournalEntry, CashBalance,
}
use pmrp.Portfolio.Entry.{make_entry}
use pmrp.Portfolio.Balances.{account_cash, mem, CashProjection, apply_journal_to_cash_balance}
use pmrp.Portfolio.Journal.{line, make_lines}

abbrev pub account_cash_transfer : Text
account_cash_transfer = str "cash_transfer"

-- `CashTransferApplicationResult`
pub record TransferApplication : Type 0 where
  pub from_balance : CashBalance
  pub to_balance : CashBalance
  pub outbound_projection : Option CashProjection
  pub inbound_projection : Option CashProjection
  pub journal_entry : Option JournalEntry
  pub applied_journal_entry_ids : List Text
  pub applied : Bool
  pub duplicate_transfer : Bool

-- `_validate_transfer_id`
unfoldable pub validate_transfer_id : Text → Result PortfolioError (Unit {0})
validate_transfer_id id = raise_if (is_blank_or_padded id) transfer_id_invalid

abbrev pub code_of : CashBalance → Text
code_of b = account_cash ++ (str ":" ++ b.balance_id)

-- `_cash_balance_account_code`
unfoldable pub cash_balance_account_code : CashBalance → Result PortfolioError Text
cash_balance_account_code b = do
  raise_if (ltb 128 (length (code_of b))) account_code_too_long
  ok (code_of b)

-- `_validate_transfer_inputs`
unfoldable pub validate_transfer_inputs :
    CashBalance → CashBalance → Money → Text → Result PortfolioError (Unit {0})
validate_transfer_inputs from to amount id = do
  validate_transfer_id id
  raise_if (from.balance_id == to.balance_id) same_balance
  raise_if (not (from.currency == to.currency)) currency_mismatch
  raise_if (not (is_currency amount.currency)) field_out_of_bounds
  raise_if (not (from.currency == amount.currency)) currency_mismatch
  raise_if (leb_ℤ amount.amount (pos 0)) amount_not_positive
  _ ← cash_balance_account_code from
  _ ← cash_balance_account_code to
  ok tt

-- The entry, as the code passes it to its constructor.
abbrev pub transfer_entry : Text → List JournalLine → Text → Text → ℕ → ℕ → JournalEntry
transfer_entry entry_id lines id source occurred_at created_at = record {
  journal_entry_id = entry_id;
  occurred_at = occurred_at;
  source_event_id = source;
  reference_type = str "transfer";
  reference_id = id;
  lines = lines;
  description = str "Cash transfer accounting for " ++ (id ++ str ".");
  created_at = created_at;
}

abbrev pub transfer_lines : Text → Text → Money → List JournalLine
transfer_lines from to amount =
    line from (neg_ℤ amount.amount) amount.currency (str "Cash transfer outbound cash movement.")
    ∷ line account_cash_transfer amount.amount amount.currency
        (str "Cash transfer outbound offset.")
    ∷ line to amount.amount amount.currency (str "Cash transfer inbound cash movement.")
    ∷ line account_cash_transfer (neg_ℤ amount.amount) amount.currency
        (str "Cash transfer inbound offset.")
    ∷ []

module _ (digest : Text → Text) where
  abbrev pub transfer_id_of : Text → Text
  transfer_id_of id = str "journal_cash_transfer_" ++ take 32 (digest id)

  -- `derive_cash_transfer_journal_entry_id`
  unfoldable pub derive_cash_transfer_id : Text → Result PortfolioError Text
  derive_cash_transfer_id id = do validate_transfer_id id; ok (transfer_id_of id)

  -- `build_cash_transfer_journal_entry`
  unfoldable pub build_cash_transfer_entry :
      CashBalance → CashBalance → Money → Text → Text → ℕ → ℕ → Result PortfolioError JournalEntry
  build_cash_transfer_entry from to amount id source occurred_at created_at = do
    validate_transfer_inputs from to amount id
    entry_id ← derive_cash_transfer_id id
    from_code ← cash_balance_account_code from
    to_code ← cash_balance_account_code to
    lines ← make_lines (transfer_lines from_code to_code amount)
    make_entry (transfer_entry entry_id lines id source occurred_at created_at)

  -- `apply_cash_transfer_once`
  unfoldable pub apply_cash_transfer_once :
      CashBalance
      → CashBalance
      → Money
      → Text
      → List Text
      → Text
      → ℕ
      → ℕ
      → Result PortfolioError TransferApplication
  apply_cash_transfer_once from to amount id ids source occurred_at created_at =
      let fresh =
        (build_cash_transfer_entry from to amount id source occurred_at created_at >>= λ e.
        cash_balance_account_code from >>= λ from_code.
        apply_journal_to_cash_balance from_code from e >>= λ outbound.
        cash_balance_account_code to >>= λ to_code.
        apply_journal_to_cash_balance to_code to e >>= λ inbound. ok (record {
          from_balance = outbound.balance;
          to_balance = inbound.balance;
          outbound_projection = some outbound;
          inbound_projection = some inbound;
          journal_entry = some e;
          applied_journal_entry_ids = transfer_id_of id ∷ ids;
          applied = true;
          duplicate_transfer = false;
        })) in
      validate_transfer_inputs from to amount id
      >> (derive_cash_transfer_id id >>= λ entry_id.
          if mem entry_id ids
          then ok (record {
            from_balance = from;
            to_balance = to;
            outbound_projection = none;
            inbound_projection = none;
            journal_entry = none;
            applied_journal_entry_ids = ids;
            applied = false;
            duplicate_transfer = true;
          })
          else fresh)
