-- ===== src/Portfolio/Balances.antt =====
-- Cash balances (portfolio/balances.py). The hexadecimal SHA-256 digest of a correction's
-- identity, a function of its fields, is a parameter.
pub mod Movement
pub mod Again
pub mod Correction
use pmrp.Common.{
  ℕ, Bool, true, false, not, ◌&&◌, ◌||◌, Option, none, some, List, [], ◌∷◌, ltb, any_of, keep_if,
  ◌++◌, take, if◌then◌else◌,
}
use pmrp.Common.Equality.{◌==◌}
use pmrp.Common.Fields.{is_empty, is_currency}
use pmrp.Common.Int.{ℤ, pos, ◌+ℤ◌, ◌-ℤ◌, neg_ℤ, eqb_ℤ}
use pmrp.Common.Text.{Text, str, text_eq, is_blank_or_padded}
use pmrp.Common.Result.{Result, ok, raise, ◌>>=◌, ◌>>◌, raise_if}
use pmrp.Portfolio.Types.{
  PortfolioError, entry_too_early, account_code_invalid, cash_line_missing, reference_missing,
  balance_mismatch, exchange_mismatch, account_mismatch, currency_mismatch, observed_too_early,
  reserved_changed, no_cash_delta, field_out_of_bounds, Money, JournalLine, JournalEntry,
  CashBalance,
}
use pmrp.Portfolio.Entry.{make_line, make_entry, make_balance}

abbrev pub account_cash : Text
account_cash = str "cash"

abbrev pub account_balance_correction : Text
account_balance_correction = str "balance_correction"

-- `CashBalanceProjectionResult`
pub record CashProjection : Type 0 where
  pub balance : CashBalance
  pub cash_delta : Money

-- `sum`
abbrev pub sum_amounts : List JournalLine → ℤ
sum_amounts [] = pos 0
sum_amounts (l ∷ ls) = l.amount +ℤ sum_amounts ls

abbrev pub is_cash_line : Text → Text → JournalLine → Bool
is_cash_line code currency l = l.account_code == code && l.currency == currency

-- `_cash_delta_for_currency`
unfoldable pub cash_delta_for_currency : JournalEntry → Text → Text → Result PortfolioError Money
cash_delta_for_currency e currency code = do
  raise_if (not (is_currency currency)) field_out_of_bounds
  raise_if (is_blank_or_padded code) account_code_invalid
  raise_if (is_empty (keep_if (is_cash_line code currency) e.lines)) cash_line_missing
  ok (record {
    amount = sum_amounts (keep_if (is_cash_line code currency) e.lines);
    currency = currency;
  })

-- `apply_journal_to_cash_balance`
unfoldable pub apply_journal_to_cash_balance :
    Text → CashBalance → JournalEntry → Result PortfolioError CashProjection
apply_journal_to_cash_balance code b e = do
  raise_if (ltb e.occurred_at b.captured_at) entry_too_early
  delta ← cash_delta_for_currency e b.currency code
  projected ← make_balance (record b {
    available = b.available +ℤ delta.amount;
    total = b.total +ℤ delta.amount;
    captured_at = e.occurred_at;
  })
  ok (record { balance = projected; cash_delta = delta })

-- `CashBalanceApplicationResult`; a set of identifiers is a list.
pub record CashApplication : Type 0 where
  pub balance : CashBalance
  pub cash_projection : Option CashProjection
  pub applied_journal_entry_ids : List Text
  pub applied : Bool
  pub duplicate_journal_entry : Bool

abbrev pub mem : Text → List Text → Bool
mem id ids = any_of (λ i. i == id) ids

-- `apply_journal_to_cash_balance_once`
unfoldable pub apply_journal_to_cash_balance_once :
    CashBalance → JournalEntry → List Text → Result PortfolioError CashApplication
apply_journal_to_cash_balance_once b e ids =
    let fresh =
      (apply_journal_to_cash_balance account_cash b e >>= λ p. ok (record {
        balance = p.balance;
        cash_projection = some p;
        applied_journal_entry_ids = e.journal_entry_id ∷ ids;
        applied = true;
        duplicate_journal_entry = false;
      })) in
    if mem e.journal_entry_id ids
    then ok (record {
      balance = b;
      cash_projection = none;
      applied_journal_entry_ids = ids;
      applied = false;
      duplicate_journal_entry = true;
    })
    else fresh

-- `_validate_balance_correction_identity`
unfoldable pub validate_correction_identity :
    CashBalance → CashBalance → Text → Result PortfolioError (Unit {0})
validate_correction_identity b o reference = do
  raise_if (is_empty reference) reference_missing
  raise_if (not (o.balance_id == b.balance_id)) balance_mismatch
  raise_if (not (o.exchange == b.exchange)) exchange_mismatch
  raise_if (not (o.account_id == b.account_id)) account_mismatch
  raise_if (not (o.currency == b.currency)) currency_mismatch

-- `_validate_balance_correction_application`
unfoldable pub validate_correction_application :
    CashBalance → CashBalance → Text → Result PortfolioError (Unit {0})
validate_correction_application b o reference = do
  validate_correction_identity b o reference
  raise_if (ltb o.captured_at b.captured_at) observed_too_early
  raise_if (not (eqb_ℤ o.reserved b.reserved)) reserved_changed

-- The two lines of a correction, as the code passes them to their constructors.
abbrev pub correction_line : Text → ℤ → Text → Text → JournalLine
correction_line code amount currency description = record {
  account_code = code;
  amount = amount;
  currency = currency;
  description = some description;
}

module _ (digest : Text → ℤ → ℕ → ℤ → Text → Text) where
  -- `derive_balance_correction_journal_entry_id`
  abbrev pub derive_correction_id : CashBalance → CashBalance → Text → Text
  derive_correction_id b o reference =
      str "journal_balance_correction_"
      ++ take 32 (digest b.balance_id o.available o.captured_at o.total reference)

  -- `build_balance_correction_journal_entry`
  unfoldable pub build_correction_entry :
      CashBalance → CashBalance → Text → Text → ℕ → Result PortfolioError JournalEntry
  build_correction_entry b o reference source created_at = do
    validate_correction_application b o reference
    raise_if (eqb_ℤ (o.available -ℤ b.available) (pos 0)) no_cash_delta
    cash ← make_line (
        correction_line account_cash (o.available -ℤ b.available) b.currency
          (str "Balance correction cash movement."))
    offset ← make_line (
        correction_line account_balance_correction (neg_ℤ (o.available -ℤ b.available)) b.currency
          (str "Balance correction offset."))
    make_entry (record {
      journal_entry_id = derive_correction_id b o reference;
      occurred_at = o.captured_at;
      source_event_id = source;
      reference_type = str "balance_correction";
      reference_id = reference;
      lines = cash ∷ offset ∷ [];
      description = str "Cash balance correction for " ++ b.balance_id ++ str ".";
      created_at = created_at;
    })

-- `CashBalanceCorrectionResult`
pub record CashCorrection : Type 0 where
  pub balance : CashBalance
  pub cash_projection : Option CashProjection
  pub journal_entry : Option JournalEntry
  pub applied_journal_entry_ids : List Text
  pub applied : Bool
  pub duplicate_correction : Bool

module _ (digest : Text → ℤ → ℕ → ℤ → Text → Text) where
  -- `apply_balance_correction_once`
  unfoldable pub apply_balance_correction_once :
      CashBalance → CashBalance → List Text → Text → Text → ℕ → Result PortfolioError CashCorrection
  apply_balance_correction_once b o ids reference source created_at =
      let id = derive_correction_id digest b o reference in
      let fresh =
        (build_correction_entry digest b o reference source created_at >>= λ e.
        apply_journal_to_cash_balance account_cash b e >>= λ p. ok (record {
          balance = p.balance;
          cash_projection = some p;
          journal_entry = some e;
          applied_journal_entry_ids = id ∷ ids;
          applied = true;
          duplicate_correction = false;
        })) in
      validate_correction_identity b o reference
      >> (if mem id ids
          then ok (record {
            balance = b;
            cash_projection = none;
            journal_entry = none;
            applied_journal_entry_ids = ids;
            applied = false;
            duplicate_correction = true;
          })
          else fresh)
