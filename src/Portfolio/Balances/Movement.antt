-- ===== src/Portfolio/Balances/Movement.antt =====
-- What journal entries do to a cash balance, one by one and in a replay.
use pmrp.Common.{
  ℕ, ◌≤◌, ◌≡◌, refl, inl, inr, true, false, List, [], ◌∷◌, arith, ltb, keep_if, Bool-cases,
  if◌then◌else◌,
}
use pmrp.Common.Fields.{is_bad_length, is_empty, is_currency}
use pmrp.Common.Int.{ℤ, pos, ◌+ℤ◌, eqb_ℤ, ltb_ℤ, parts_of_eq, int_laws}
use pmrp.Common.Text.{Text, text_eq, is_blank_or_padded}
use pmrp.Common.Result.{Result, ok, ◌>>=◌}
use pmrp.Portfolio.Types.{PortfolioError, JournalEntry, CashBalance}
use pmrp.Portfolio.Entry.{make_balance}
use pmrp.Portfolio.Entry.Balanced.{eqb_ℤ_iff}
use pmrp.Portfolio.Balances.{
  account_cash, sum_amounts, is_cash_line, cash_delta_for_currency, apply_journal_to_cash_balance,
  mem, apply_journal_to_cash_balance_once,
}

-- A balance that its constructor accepts.
pub record IsBalance (b : CashBalance) : Type 0 where
  pub id_fits : is_bad_length 128 b.balance_id ≡ false
  pub exchange_fits : is_bad_length 64 b.exchange ≡ false
  pub in_currency : is_currency b.currency ≡ true
  pub reserved_nonnegative : ltb_ℤ b.reserved (pos 0) ≡ false
  pub adds_up : b.available +ℤ b.reserved ≡ b.total

pub make_balance_lem : (b : CashBalance) → IsBalance b → make_balance b ≡ ok b
unfolding make_balance
make_balance_lem b v =
    let same : eqb_ℤ (b.available +ℤ b.reserved) b.total ≡ true =
      (eqb_ℤ_iff _ b.total).1 v.adds_up in
    rw (v.id_fits, v.exchange_fits, v.in_currency, v.reserved_nonnegative, same) refl

-- The cash that an entry moves in a currency.
abbrev pub cash_of : Text → Text → JournalEntry → ℤ
cash_of code currency e = sum_amounts (keep_if (is_cash_line code currency) e.lines)

-- The balance after an entry: only the available and the total amount move, both by its cash.
abbrev pub moved : Text → CashBalance → JournalEntry → CashBalance
moved code b e = record b {
  available = b.available +ℤ cash_of code b.currency e;
  total = b.total +ℤ cash_of code b.currency e;
  captured_at = e.occurred_at;
}

pub moved-IsBalance :
    (code : Text) (b : CashBalance) (e : JournalEntry) → IsBalance b → IsBalance (moved code b e)
moved-IsBalance code b e v = record {
  id_fits = v.id_fits;
  exchange_fits = v.exchange_fits;
  in_currency = v.in_currency;
  reserved_nonnegative = v.reserved_nonnegative;
  adds_up = omega (int_laws, parts_of_eq v.adds_up);
}

-- A valid balance takes every entry that is not older than it and has a cash line in its currency;
-- the projected balance is valid, and moves by the entry's cash.
pub apply_journal_lem :
    (code : Text) (b : CashBalance) (e : JournalEntry)
    → IsBalance b
    → is_blank_or_padded code ≡ false
    → b.captured_at ≤ e.occurred_at
    → is_empty (keep_if (is_cash_line code b.currency) e.lines) ≡ false
    → (apply_journal_to_cash_balance code b e
        ≡ ok (record {
          balance = moved code b e;
          cash_delta = record { amount = cash_of code b.currency e; currency = b.currency };
        }))
      × IsBalance (moved code b e)
unfolding apply_journal_to_cash_balance cash_delta_for_currency
apply_journal_lem code b e v c t n =
    let early : ltb e.occurred_at b.captured_at ≡ false = ground (arith, t) in
    let valid = moved-IsBalance code b e v in
    (rw (early, v.in_currency, c, n, make_balance_lem (moved code b e) valid) refl, valid)

-- Entries one after the other, each with the identifiers applied before.
abbrev pub apply_entries :
    CashBalance → List Text → List JournalEntry → Result PortfolioError (CashBalance × List Text)
apply_entries b ids [] = ok (b, ids)
apply_entries b ids (e ∷ es) = apply_journal_to_cash_balance_once b e ids >>= λ r.
    apply_entries r.balance r.applied_journal_entry_ids es

-- The cash of the entries whose identifiers are new.
abbrev pub new_cash : Text → List Text → List JournalEntry → ℤ
new_cash currency ids [] = pos 0
new_cash currency ids (e ∷ es) =
    let skipped = new_cash currency ids es in
    let taken =
      cash_of account_cash currency e +ℤ new_cash currency (e.journal_entry_id ∷ ids) es in
    if mem e.journal_entry_id ids then skipped else taken

-- Entries in the order of time, each with a cash line in the currency.
abbrev pub Applicable : Text → ℕ → List JournalEntry → Type 0
Applicable currency t [] = Unit
Applicable currency t (e ∷ es) =
    (t ≤ e.occurred_at)
    × (is_empty (keep_if (is_cash_line account_cash currency) e.lines) ≡ false)
    × Applicable currency e.occurred_at es

Applicable-le :
    (currency : Text) (t u : ℕ) (es : List JournalEntry)
    → t ≤ u
    → Applicable currency u es
    → Applicable currency t es
Applicable-le currency t u [] l a = tt
Applicable-le currency t u (e ∷ es) l a = (omega (arith, a.0), a.1, a.2)

-- A replay of entries in the order of time, each with a cash line, always returns a valid balance:
-- the available amount and the total have moved by the cash of each distinct entry once, and the
-- reserved amount and the currency are as before.
pub apply_entries_lem :
    (b : CashBalance) (ids : List Text) (es : List JournalEntry)
    → IsBalance b
    → Applicable b.currency b.captured_at es
    → (b' : CashBalance) × (ids' : List Text) × (apply_entries b ids es ≡ ok (b', ids'))
      × IsBalance b'
      × (b'.available ≡ b.available +ℤ new_cash b.currency ids es)
      × (b'.total ≡ b.total +ℤ new_cash b.currency ids es)
      × (b'.reserved ≡ b.reserved)
      × (b'.currency ≡ b.currency)
unfolding apply_journal_to_cash_balance_once
apply_entries_lem b ids [] v a = (b, ids, refl, v, omega int_laws, omega int_laws, refl, refl)
apply_entries_lem b ids (e ∷ es) v a = elim (Bool-cases (mem e.journal_entry_id ids)) [
  | inl seen ↦
      let rest = Applicable-le b.currency b.captured_at e.occurred_at es a.0 a.2 in
      let (b', ids', ran, valid, available, total, reserved, currency) =
        apply_entries_lem b ids es v rest in
      (b', ids', rw seen ran, valid, rw seen available, rw seen total, reserved, currency)
  | inr fresh ↦
      let (step, valid) = apply_journal_lem account_cash b e v refl a.0 a.1 in
      let (b', ids', ran, valid', available, total, reserved, currency) =
        apply_entries_lem (moved account_cash b e) (e.journal_entry_id ∷ ids) es valid a.2 in
      (
        b',
        ids',
        rw (fresh, step) ran,
        valid',
        rw fresh (omega (int_laws, parts_of_eq available)),
        rw fresh (omega (int_laws, parts_of_eq total)),
        reserved,
        currency,
      )
]
