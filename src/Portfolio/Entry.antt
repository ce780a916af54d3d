-- ===== src/Portfolio/Entry.antt =====
-- The constructors of journal lines, journal entries and cash balances, with their validators.
pub mod Balanced
use pmrp.Common.{
  ℕ, Bool, true, false, not, ◌&&◌, ◌||◌, Option, none, some, List, [], ◌∷◌, ltb, any_of,
  if◌then◌else◌,
}
use mathlib.Core.List.{foldl}
use pmrp.Common.Dict.{Dict, get, put}
use pmrp.Common.Fields.{is_bad_length, is_bad_optional, is_empty, is_currency}
use pmrp.Common.Int.{ℤ, pos, ◌+ℤ◌, eqb_ℤ, ltb_ℤ}
use pmrp.Common.Text.{Text, text_eq}
use pmrp.Common.Result.{Result, ok, raise, ◌>>=◌, ◌>>◌, raise_if}
use pmrp.Portfolio.Types.{
  PortfolioError, field_out_of_bounds, no_lines, created_too_early, unbalanced, balance_identity,
  JournalLine, JournalEntry, CashBalance,
}

-- The constructor of `JournalLine`.
unfoldable pub make_line : JournalLine → Result PortfolioError JournalLine
make_line l = do
  raise_if
      (is_bad_length 128 l.account_code
        || is_bad_optional 512 l.description
        || not (is_currency l.currency))
      field_out_of_bounds
  ok l

abbrev pub or_zero : Option ℤ → ℤ
or_zero none = pos 0
or_zero (some z) = z

-- `totals_by_currency[line.currency] += line.amount`
unfoldable pub add_line : Dict Text ℤ → JournalLine → Dict Text ℤ
add_line d l = put l.currency (or_zero (get l.currency d) +ℤ l.amount) d

unfoldable pub totals_by_currency : List JournalLine → Dict Text ℤ
totals_by_currency = foldl add_line []

abbrev pub is_nonzero : Text × ℤ → Bool
is_nonzero (currency, total) = not (eqb_ℤ total (pos 0))

-- `validate_journal_balance`
unfoldable pub validate_journal_balance : JournalEntry → Result PortfolioError (Unit {0})
validate_journal_balance e = do
  raise_if (is_empty e.lines) no_lines
  raise_if (ltb e.created_at e.occurred_at) created_too_early
  raise_if (any_of is_nonzero (totals_by_currency e.lines)) unbalanced

-- The constructor of `AccountingJournalEntry`.
unfoldable pub make_entry : JournalEntry → Result PortfolioError JournalEntry
make_entry e = do
  raise_if
      (is_bad_length 128 e.journal_entry_id
        || is_bad_length 64 e.reference_type
        || is_bad_length 128 e.reference_id
        || is_bad_length 1024 e.description)
      field_out_of_bounds
  validate_journal_balance e
  ok e

-- The constructor of `CashBalance`, with `validate_balance_identity`.
unfoldable pub make_balance : CashBalance → Result PortfolioError CashBalance
make_balance b = do
  raise_if
      (is_bad_length 128 b.balance_id
        || is_bad_length 64 b.exchange
        || not (is_currency b.currency)
        || ltb_ℤ b.reserved (pos 0))
      field_out_of_bounds
  raise_if (not (eqb_ℤ (b.available +ℤ b.reserved) b.total)) balance_identity
  ok b
