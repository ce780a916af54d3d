-- ===== src/Portfolio/Tests.antt =====
-- The theorems of journal entries and cash balances at concrete ones.
pub mod Fills
pub mod Settlements
use pmrp.Common.{ℕ, ◌/◌, ◌≡◌, refl, true, false, none, some, List, [], ◌∷◌, arith, keep_if}
use pmrp.Common.Int.{ℤ, pos, negsuc, ◌+ℤ◌, ◌-ℤ◌, ◌*ℤ◌, neg_ℤ}
use pmrp.Common.Text.{Text, str}
use pmrp.Common.Result.{ok, raise}
use pmrp.Simulation.MarketData.{buy, sell}
use pmrp.Portfolio.Types.{
  PortfolioError, Money, JournalLine, JournalEntry, CashBalance, Position, Fill,
}
use pmrp.Portfolio.Entry.{validate_journal_balance, make_balance, totals_by_currency, add_line}
use pmrp.Portfolio.Balances.{
  account_cash, CashProjection, CashCorrection, is_cash_line, validate_correction_identity,
  validate_correction_application, cash_delta_for_currency, apply_journal_to_cash_balance,
  apply_journal_to_cash_balance_once, apply_balance_correction_once,
}
use pmrp.Portfolio.Balances.Movement.{
  IsBalance, cash_of, apply_entries, new_cash, apply_entries_lem,
}
use pmrp.Portfolio.Balances.Again.{replay_again}
use pmrp.Portfolio.Balances.Correction.{corrected, apply_correction_lem}
use pmrp.Portfolio.Average.{
  sign, same_direction, WeightedAverage, average_open, apply_weighted_average_fill,
}
use pmrp.Portfolio.Average.Closing.{open_then_close}
use pmrp.Portfolio.Average.Parts.{IsExact}
use pmrp.Portfolio.Average.Exact.{apply_weighted_average_fill_lem}
use pmrp.Portfolio.Positions.{
  validate_money, zero_money, project_opened_at, make_position, fill_money, Existing,
  existing_state, PositionProjection, apply_fill_to_position,
}
use pmrp.Portfolio.Journal.{
  validate_nonnegative_money, validate_identity, validate_moneys, validate_amounts,
  validate_projection_for_fill, build_fill_journal_entry,
}
use pmrp.Portfolio.Journal.Posting.{build_fill_journal_entry_lem}
use pmrp.Portfolio.Accounting.{IsFill, account_fill}

abbrev usd : Text
usd = str "USD"

abbrev cash_line : ℤ → JournalLine
cash_line z = record { account_code = str "cash"; amount = z; currency = usd; description = none }

abbrev cost_line : ℤ → JournalLine
cost_line z = record (cash_line z) { account_code = str "position_cost" }

-- A purchase for 50 at time 8.
abbrev purchase : JournalEntry
purchase = record {
  journal_entry_id = str "j1";
  occurred_at = 8;
  source_event_id = str "ev1";
  reference_type = str "fill";
  reference_id = str "f1";
  lines = cash_line (negsuc 49) ∷ cost_line (pos 50) ∷ [];
  description = str "purchase";
  created_at = 9;
}

abbrev sale : JournalEntry
sale = record purchase {
  journal_entry_id = str "j2";
  occurred_at = 12;
  lines = cash_line (pos 70) ∷ cost_line (negsuc 69) ∷ [];
  created_at = 12;
}

abbrev wallet : CashBalance
wallet = record {
  balance_id = str "cash_1";
  exchange = str "kalshi";
  account_id = str "acc";
  currency = usd;
  available = pos 900;
  reserved = pos 100;
  total = pos 1000;
  captured_at = 5;
}

wallet-IsBalance : IsBalance wallet
unfolding ◌+ℤ◌
wallet-IsBalance = record {
  id_fits = refl;
  exchange_fits = refl;
  in_currency = refl;
  reserved_nonnegative = refl;
  adds_up = refl;
}

-- An entry in which a currency does not sum to zero.
abbrev lopsided : JournalEntry
lopsided = record purchase { lines = cash_line (negsuc 49) ∷ cost_line (pos 49) ∷ [] }

accepted_and_refused :
    (validate_journal_balance purchase ≡ ok tt)
    × (validate_journal_balance lopsided ≡ raise PortfolioError.unbalanced)
unfolding validate_journal_balance totals_by_currency add_line ◌+ℤ◌
accepted_and_refused = (refl, refl)

abbrev journal : List JournalEntry
journal = purchase ∷ purchase ∷ sale ∷ []

apply_entries_lem_example :
    (b' : CashBalance) × (ids' : List Text) × (apply_entries wallet [] journal ≡ ok (b', ids'))
    × IsBalance b'
    × (b'.available ≡ pos 900 +ℤ new_cash usd [] journal)
    × (b'.total ≡ pos 1000 +ℤ new_cash usd [] journal)
    × (b'.reserved ≡ pos 100)
    × (b'.currency ≡ usd)
apply_entries_lem_example =
    apply_entries_lem wallet [] journal wallet-IsBalance
      (omega arith, refl, (omega arith, refl, (omega arith, refl, tt)))

-- The purchase counts once.
distinct_cash : new_cash usd [] journal ≡ pos 20
unfolding ◌+ℤ◌
distinct_cash = refl

abbrev after_journal : CashBalance
after_journal = record wallet { available = pos 920; total = pos 1020; captured_at = 12 }

replay_again_example :
    apply_entries after_journal (str "j2" ∷ str "j1" ∷ []) journal
    ≡ ok (after_journal, str "j2" ∷ str "j1" ∷ [])
unfolding ◌+ℤ◌ apply_journal_to_cash_balance_once apply_journal_to_cash_balance
    cash_delta_for_currency make_balance
replay_again_example = replay_again wallet [] journal after_journal (str "j2" ∷ str "j1" ∷ []) refl

abbrev observed : CashBalance
observed = record wallet { available = pos 880; total = pos 980; captured_at = 6 }

observed-IsBalance : IsBalance observed
unfolding ◌+ℤ◌
observed-IsBalance = record {
  id_fits = refl;
  exchange_fits = refl;
  in_currency = refl;
  reserved_nonnegative = refl;
  adds_up = refl;
}

abbrev correction_digest : Text → ℤ → ℕ → ℤ → Text → Text
correction_digest id a t z reference = id

apply_correction_lem_example :
    (c : CashCorrection) × (apply_balance_correction_once correction_digest wallet observed []
        (str "rec1")
        (str "ev2")
        7
      ≡ ok c)
    × (c.balance ≡ corrected correction_digest wallet observed)
    × IsBalance c.balance
    × (c.applied ≡ true)
    × (apply_balance_correction_once correction_digest c.balance observed
          c.applied_journal_entry_ids
          (str "rec1")
          (str "ev2")
          9
        ≡ ok (record {
          balance = c.balance;
          cash_projection = none;
          journal_entry = none;
          applied_journal_entry_ids = c.applied_journal_entry_ids;
          applied = false;
          duplicate_correction = true;
        }))
unfolding validate_correction_application validate_correction_identity
apply_correction_lem_example =
    apply_correction_lem correction_digest wallet observed [] (str "rec1") (str "ev2") 7 9
      wallet-IsBalance observed-IsBalance refl refl refl (omega arith) refl
