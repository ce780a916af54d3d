-- ===== src/Portfolio/Entry/Balanced.antt =====
-- The totals of a journal entry: the table by currency, and the plain sums.
use pmrp.Common.{
  ◌≤◌, ◌≡◌, ◌↔◌, refl, sym, ap, ◌∙◌, subst, inl, inr, true, false, none, List, [], ◌∷◌, arith, ltb,
  any_of, Bool-cases, if◌then◌else◌,
}
use mathlib.Core.List.{foldl}
use pmrp.Common.Dict.{Dict, get, get-put, IsUnique, put-IsUnique}
use pmrp.Common.Equality.{◌==◌}
use pmrp.Common.Fields.{is_empty}
use pmrp.Common.Int.{ℤ, pos, ◌+ℤ◌, eqb_ℤ, eq_of_parts, int_laws, +ℤ_assoc}
use pmrp.Common.Text.{Text, text_eq, text_eqb, text_eqb_iff}
use pmrp.Common.Result.{ok, raise_if_inversion}
use pmrp.Portfolio.Types.{JournalLine, JournalEntry}
use pmrp.Portfolio.Entry.{
  or_zero, add_line, totals_by_currency, is_nonzero, validate_journal_balance,
}

-- The sum of the amounts in one currency.
abbrev pub currency_sum : Text → List JournalLine → ℤ
currency_sum c [] = pos 0
currency_sum c (l ∷ ls) =
    let rest = currency_sum c ls in if l.currency == c then l.amount +ℤ rest else rest

pub zero_add : (z : ℤ) → pos 0 +ℤ z ≡ z
zero_add z = omega int_laws

get-add_line :
    (c : Text) (d : Dict Text ℤ) (l : JournalLine)
    → or_zero (get c (add_line d l))
      ≡ (if l.currency == c then or_zero (get c d) +ℤ l.amount else or_zero (get c d))
unfolding add_line
get-add_line c d l = elim (Bool-cases (l.currency == c)) [
  | inl same ↦
      rw (get-put l.currency c (or_zero (get l.currency d) +ℤ l.amount) d, same)
        (ap (λ (k : Text). or_zero (get k d) +ℤ l.amount) ((text_eqb_iff l.currency c).0 same))
  | inr other ↦ rw (get-put l.currency c (or_zero (get l.currency d) +ℤ l.amount) d, other) refl
]

get-totals :
    (c : Text) (d : Dict Text ℤ) (ls : List JournalLine)
    → or_zero (get c (foldl add_line d ls)) ≡ or_zero (get c d) +ℤ currency_sum c ls
get-totals c d [] = omega int_laws
get-totals c d (l ∷ ls) =
    get-totals c (add_line d l) ls
    ∙ ap (λ (z : ℤ). z +ℤ currency_sum c ls) (get-add_line c d l)
    ∙ elim (Bool-cases (l.currency == c)) [
      | inl same ↦ rw same (+ℤ_assoc (or_zero (get c d)) l.amount (currency_sum c ls))
      | inr other ↦ rw other refl
    ]

totals-IsUnique :
    (d : Dict Text ℤ) (ls : List JournalLine) → IsUnique d → IsUnique (foldl add_line d ls)
unfolding add_line
totals-IsUnique d [] u = u
totals-IsUnique d (l ∷ ls) u =
    totals-IsUnique (add_line d l) ls
      (put-IsUnique l.currency (or_zero (get l.currency d) +ℤ l.amount) d u)

pub eqb_ℤ_iff : (a b : ℤ) → (eqb_ℤ a b ≡ true) ↔ (a ≡ b)
eqb_ℤ_iff a b = (λ h. eq_of_parts a b (ground (arith, h)), λ h. rw h (ground arith))

all_zero : (d : Dict Text ℤ) → any_of is_nonzero d ≡ false → (c : Text) → or_zero (get c d) ≡ pos 0
all_zero [] h c = refl
all_zero ((j, v) ∷ d) h c = ground (arith, eqb_ℤ_iff v (pos 0), all_zero d (ground (arith, h)) c)

none_nonzero :
    (d : Dict Text ℤ)
    → IsUnique d
    → ((c : Text) → or_zero (get c d) ≡ pos 0)
    → any_of is_nonzero d ≡ false
none_nonzero [] u h = refl
none_nonzero ((j, v) ∷ d) u h =
    let head : v ≡ pos 0 = ground (arith, h j, text_eqb_iff j j) in
    let rest : any_of is_nonzero d ≡ false = none_nonzero d u.1 (tail u.0) in
    ground (arith, head, rest, eqb_ℤ_iff v (pos 0))
  where
    tail : get j d ≡ none → (c : Text) → or_zero (get c d) ≡ pos 0
    tail fresh c = elim (Bool-cases (text_eqb j c)) [
      | inl same ↦
          ap or_zero (subst (λ (k : Text). get k d ≡ none) ((text_eqb_iff j c).0 same) fresh)
      | inr other ↦ ground (arith, h c, other)
    ]

pub validate_journal_balance_iff :
    (e : JournalEntry)
    → (validate_journal_balance e ≡ ok tt) ↔ (
        (is_empty e.lines ≡ false)
        × (e.occurred_at ≤ e.created_at)
        × ((c : Text) → currency_sum c e.lines ≡ pos 0))
unfolding validate_journal_balance totals_by_currency
validate_journal_balance_iff e = (
  (λ h.
      let a = raise_if_inversion (is_empty e.lines) _ _ h in
      let b = raise_if_inversion (ltb e.created_at e.occurred_at) _ _ a.1 in
      let zero : any_of is_nonzero (foldl add_line [] e.lines) ≡ false = ground (arith, b.1) in
      (
        a.0,
        ground (arith, b.0),
        λ c.
            let total = get-totals c [] e.lines in
            let none_left = all_zero (foldl add_line [] e.lines) zero c in
            sym (zero_add (currency_sum c e.lines)) ∙ sym total ∙ none_left,
      )),
  λ (n, t, z).
      let early : ltb e.created_at e.occurred_at ≡ false = ground (arith, t) in
      let zero : any_of is_nonzero (foldl add_line [] e.lines) ≡ false =
        none_nonzero (foldl add_line [] e.lines) (totals-IsUnique [] e.lines tt)
          (λ c. get-totals c [] e.lines ∙ rw (z c) (omega int_laws)) in
      rw (n, early, zero) refl,
)
