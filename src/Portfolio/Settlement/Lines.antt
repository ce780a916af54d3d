-- ===== src/Portfolio/Settlement/Lines.antt =====
-- The lines of the journal entry of a settlement or of its correction.
use pmrp.Common.{◌≤◌, ◌≡◌, refl, ◌∙◌, Bool, true, false, List, [], ◌∷◌, keep_if, All, if◌then◌else◌}
use pmrp.Common.Equality.{◌==◌}
use pmrp.Common.Fields.{is_bad_length, is_empty, is_currency}
use pmrp.Common.Int.{ℤ, pos, ◌+ℤ◌, parts_of_eq, int_laws}
use pmrp.Common.Text.{Text, text_eq, text_eqb_iff}
use pmrp.Common.Result.{ok}
use pmrp.Portfolio.Types.{JournalLine, JournalEntry}
use pmrp.Portfolio.Entry.{validate_journal_balance}
use pmrp.Portfolio.Entry.Balanced.{validate_journal_balance_iff}
use pmrp.Portfolio.Balances.{account_cash, is_cash_line, sum_amounts}
use pmrp.Portfolio.Balances.Movement.{cash_of}
use pmrp.Portfolio.Journal.{account_position_cost, line, make_lines}
use pmrp.Portfolio.Journal.Posting.{Fine, line-Fine, make_lines-Fine, currency_sum-Fine}
use pmrp.Portfolio.Settlement.{account_settlement_pnl}

-- An entry of three lines: cash, the position's cost, and the profit or loss.
abbrev pub three_lines : Text → ℤ → ℤ → ℤ → Text → Text → Text → List JournalLine
three_lines k x y z tx ty tz =
    line account_cash x k tx
    ∷ line account_position_cost y k ty
    ∷ line account_settlement_pnl z k tz
    ∷ []

-- The lines of an entry whose three amounts cancel are accepted, balanced, and carry the cash.
pub three_lines-lem :
    (e : JournalEntry) (k : Text) (x y z : ℤ) (tx ty tz : Text)
    → e.lines ≡ three_lines k x y z tx ty tz
    → is_currency k ≡ true
    → is_bad_length 512 tx ≡ false
    → is_bad_length 512 ty ≡ false
    → is_bad_length 512 tz ≡ false
    → x +ℤ (y +ℤ z) ≡ pos 0
    → e.occurred_at ≤ e.created_at
    → (make_lines (three_lines k x y z tx ty tz) ≡ ok (three_lines k x y z tx ty tz))
      × (validate_journal_balance e ≡ ok tt)
      × (is_empty (keep_if (is_cash_line account_cash k) e.lines) ≡ false)
      × (cash_of account_cash k e ≡ x)
three_lines-lem e k x y z tx ty tz h c fx fy fz zero_sum late =
    let ls = three_lines k x y z tx ty tz in
    let fine : All (Fine k) ls = (
      line-Fine account_cash x k tx refl fx c,
      (
        line-Fine account_position_cost y k ty refl fy c,
        (line-Fine account_settlement_pnl z k tz refl fz c, tt),
      ),
    ) in
    let same = (text_eqb_iff k k).1 refl in
    (
      make_lines-Fine k ls fine,
      (validate_journal_balance_iff e).1 (
        rw h refl,
        late,
        λ currency. rw h (currency_sum-Fine currency k ls fine ∙ none_left (k == currency)),
      ),
      rw (h, same) refl,
      rw (h, same) (omega int_laws),
    )
  where
    none_left :
        (b : Bool) → (if b then sum_amounts (three_lines k x y z tx ty tz) else pos 0) ≡ pos 0
    none_left true = omega (int_laws, parts_of_eq zero_sum)
    none_left false = refl
