-- ===== src/Portfolio/Journal/Posting.antt =====
-- A fill from its projection through its journal entry to the cash balance.
use pmrp.Common.{
  ℕ, ◌+◌, ◌*◌, ◌≤◌, ◌≡◌, refl, sym, ◌∙◌, inl, inr, Bool, true, false, List, [], ◌∷◌, ◌++◌, arith,
  keep_if, All, length-take, length-append, Bool-cases, if◌then◌else◌,
}
use pmrp.Common.Equality.{◌==◌}
use pmrp.Common.Fields.{is_bad_length, is_empty, is_currency}
use pmrp.Common.Int.{
  ℤ, pos, ◌+ℤ◌, ◌-ℤ◌, ◌*ℤ◌, neg_ℤ, abs_ℤ, ltb_ℤ, parts_of_eq, neg_ℤ_parts, int_laws,
}
use pmrp.Common.Text.{Text, str, text_eq, text_eqb, text_eqb_iff}
use pmrp.Common.Result.{ok}
use pmrp.Portfolio.Types.{JournalLine, JournalEntry, Fill}
use pmrp.Portfolio.Decimals.{Context}
use pmrp.Portfolio.Entry.{make_line, make_entry, validate_journal_balance}
use pmrp.Portfolio.Entry.Balanced.{currency_sum, validate_journal_balance_iff}
use pmrp.Portfolio.Balances.{account_cash, sum_amounts, is_cash_line}
use pmrp.Portfolio.Balances.Movement.{cash_of}
use pmrp.Portfolio.Average.{fill_direction}
use pmrp.Portfolio.Positions.{PositionProjection}
use pmrp.Portfolio.Journal.{
  account_position_cost, account_realized_trading_pnl, account_fees_paid, account_rebates_received,
  validate_projection_for_fill, line, closed_lines, opened_lines, fee_lines, rebate_lines,
  fill_lines, make_lines, derive_fill_journal_entry_id, fill_entry, build_fill_journal_entry,
}
use pmrp.Portfolio.Journal.Matching.{IsMatching, validated-IsMatching}
use pmrp.Portfolio.Journal.Balanced.{fill_lines-sum, not_positive}

-- A line that its constructor accepts, in the currency `k`.
abbrev pub Fine : Text → JournalLine → Type 0
Fine k l = (l.currency ≡ k) × (make_line l ≡ ok l)

pub line-Fine :
    (code : Text) (z : ℤ) (k text : Text)
    → is_bad_length 128 code ≡ false
    → is_bad_length 512 text ≡ false
    → is_currency k ≡ true
    → Fine k (line code z k text)
unfolding make_line
line-Fine code z k text a b c = (refl, rw (a, b, c) refl)

All-append :
    (P : JournalLine → Type 0) (xs ys : List JournalLine) → All P xs → All P ys → All P (xs ++ ys)
All-append P [] ys a b = b
All-append P (x ∷ xs) ys a b = (a.0, All-append P xs ys a.1 b)

All-if :
    (P : JournalLine → Type 0) (t : Bool) (xs : List JournalLine)
    → All P xs
    → All P (if t then xs else [])
All-if P true xs a = a
All-if P false xs a = tt

pub make_lines-Fine : (k : Text) (ls : List JournalLine) → All (Fine k) ls → make_lines ls ≡ ok ls
unfolding make_lines
make_lines-Fine k [] a = refl
make_lines-Fine k (l ∷ ls) a = rw (a.0.1, make_lines-Fine k ls a.1) refl

pub currency_sum-Fine :
    (c k : Text) (ls : List JournalLine)
    → All (Fine k) ls
    → currency_sum c ls ≡ (if k == c then sum_amounts ls else pos 0)
currency_sum-Fine c k [] a = elim (Bool-cases (text_eqb k c)) [
  | inl e ↦ rw e refl
  | inr e ↦ rw e refl
]
currency_sum-Fine c k (l ∷ ls) a = elim (Bool-cases (text_eqb k c)) [
  | inl e ↦ rw (a.0.0, e, currency_sum-Fine c k ls a.1, e) refl
  | inr e ↦ rw (a.0.0, e, currency_sum-Fine c k ls a.1, e) refl
]

-- The cash in a list of lines.
cash_in : Text → List JournalLine → ℤ
cash_in k ls = sum_amounts (keep_if (is_cash_line account_cash k) ls)

cash_in-append :
    (k : Text) (xs ys : List JournalLine) → cash_in k (xs ++ ys) ≡ cash_in k xs +ℤ cash_in k ys
unfolding cash_in
cash_in-append k [] ys = omega int_laws
cash_in-append k (l ∷ ls) ys = elim (Bool-cases (is_cash_line account_cash k l)) [
  | inl e ↦ rw e (omega (int_laws, parts_of_eq (cash_in-append k ls ys)))
  | inr e ↦ rw e (cash_in-append k ls ys)
]

posted :
    (k : Text) (cs os fs rs : List JournalLine) (h f r : ℤ)
    → cash_in k cs ≡ pos 0
    → cash_in k os ≡ pos 0
    → cash_in k fs ≡ neg_ℤ f
    → cash_in k rs ≡ r
    → h +ℤ cash_in k (cs ++ os ++ fs ++ rs) ≡ h -ℤ f +ℤ r
posted k cs os fs rs h f r ec eo ef er =
    rw
      (
        cash_in-append k (cs ++ os ++ fs) rs,
        cash_in-append k (cs ++ os) fs,
        cash_in-append k cs os,
        ec,
        eo,
        ef,
        er,
      )
      (omega (int_laws, neg_ℤ_parts f))

module _ (fill : Fill) (r : PositionProjection) where
  lines-Fine :
      is_currency r.trade_notional.currency ≡ true
      → All (Fine r.trade_notional.currency) (fill_lines (fill_direction fill) r)
  lines-Fine c =
      let k = r.trade_notional.currency in
      let d = fill_direction fill in
      let closed : All (Fine k) (closed_lines d r) =
        All-if (Fine k) (ltb_ℤ (pos 0) r.closed_quantity) _ (
          line-Fine account_position_cost _ k _ refl refl c,
          (line-Fine account_realized_trading_pnl _ k _ refl refl c, tt),
        ) in
      let opens : All (Fine k) (opened_lines d r) =
        All-if (Fine k) (ltb_ℤ (pos 0) r.opened_quantity) _
          (line-Fine account_position_cost _ k _ refl refl c, tt) in
      let fee : All (Fine k) (fee_lines r) = All-if (Fine k) (ltb_ℤ (pos 0) r.fee.amount) _ (
        line-Fine account_cash _ k _ refl refl c,
        (line-Fine account_fees_paid _ k _ refl refl c, tt),
      ) in
      let rebate : All (Fine k) (rebate_lines r) =
        All-if (Fine k) (ltb_ℤ (pos 0) r.rebate.amount) _ (
          line-Fine account_cash _ k _ refl refl c,
          (line-Fine account_rebates_received _ k _ refl refl c, tt),
        ) in
      let two = All-append (Fine k) (closed_lines d r) (opened_lines d r) closed opens in
      let three =
        All-append (Fine k) (closed_lines d r ++ opened_lines d r) (fee_lines r) two fee in
      (
        line-Fine account_cash _ k _ refl refl c,
        All-append (Fine k) (closed_lines d r ++ opened_lines d r ++ fee_lines r) (rebate_lines r)
            three rebate,
      )

  closed-cash : cash_in r.trade_notional.currency (closed_lines (fill_direction fill) r) ≡ pos 0
  unfolding cash_in
  closed-cash = elim (Bool-cases (ltb_ℤ (pos 0) r.closed_quantity)) [
    | inl p ↦ rw p refl
    | inr p ↦ rw p refl
  ]

  opened-cash : cash_in r.trade_notional.currency (opened_lines (fill_direction fill) r) ≡ pos 0
  unfolding cash_in
  opened-cash = elim (Bool-cases (ltb_ℤ (pos 0) r.opened_quantity)) [
    | inl p ↦ rw p refl
    | inr p ↦ rw p refl
  ]

  fee-cash :
      ltb_ℤ r.fee.amount (pos 0) ≡ false
      → cash_in r.trade_notional.currency (fee_lines r) ≡ neg_ℤ r.fee.amount
  unfolding cash_in
  fee-cash h = elim (Bool-cases (ltb_ℤ (pos 0) r.fee.amount)) [
    | inl p ↦ rw (p, (text_eqb_iff r.trade_notional.currency _).1 refl) (omega int_laws)
    | inr p ↦
        rw p
          (omega (int_laws, neg_ℤ_parts r.fee.amount, parts_of_eq (not_positive r.fee.amount h p)))
  ]

  rebate-cash :
      ltb_ℤ r.rebate.amount (pos 0) ≡ false
      → cash_in r.trade_notional.currency (rebate_lines r) ≡ r.rebate.amount
  unfolding cash_in
  rebate-cash h = elim (Bool-cases (ltb_ℤ (pos 0) r.rebate.amount)) [
    | inl p ↦ rw (p, (text_eqb_iff r.trade_notional.currency _).1 refl) (omega int_laws)
    | inr p ↦ rw p (sym (not_positive r.rebate.amount h p))
  ]

  -- The cash of all the lines: the trade's, less the fee, with the rebate.
  fill-cash :
      ltb_ℤ r.fee.amount (pos 0) ≡ false
      → ltb_ℤ r.rebate.amount (pos 0) ≡ false
      → cash_in r.trade_notional.currency (fill_lines (fill_direction fill) r)
        ≡ neg_ℤ (fill_direction fill) *ℤ r.trade_notional.amount -ℤ r.fee.amount +ℤ r.rebate.amount
  unfolding cash_in
  fill-cash f g =
      let k = r.trade_notional.currency in
      let d = fill_direction fill in
      let trade = neg_ℤ d *ℤ r.trade_notional.amount in
      rw ((text_eqb_iff k k).1 refl) (
        posted k (closed_lines d r) (opened_lines d r) (fee_lines r) (rebate_lines r) trade
          r.fee.amount r.rebate.amount closed-cash opened-cash (fee-cash f) (rebate-cash g))

module _ (c : Context) (digest : Text → Text) where
  -- The entry of a validated projection is accepted by its constructors: it is balanced, and its
  -- cash is the trade's, less the fee, with the rebate. The notional, the cost of what closes, the
  -- fee and the rebate together fit the context, so that no amount or sum of the entry is rounded.
  pub build_fill_journal_entry_lem :
      (fill : Fill) (r : PositionProjection) (source : Text) (t : ℕ)
      → validate_projection_for_fill c fill r ≡ ok tt
      → is_currency r.trade_notional.currency ≡ true
      → is_bad_length 128 fill.fill_id ≡ false
      → fill.exchange_occurred_at ≤ t
      → fill.quantity * fill.price
          + abs_ℤ r.closed_cost_basis.amount
          + abs_ℤ r.fee.amount
          + abs_ℤ r.rebate.amount
        ≤ c.limit
      → (e : JournalEntry) × (build_fill_journal_entry c digest fill r source t ≡ ok e)
        × (validate_journal_balance e ≡ ok tt)
        × (e.occurred_at ≡ fill.exchange_occurred_at)
        × (is_empty (keep_if (is_cash_line account_cash r.trade_notional.currency) e.lines) ≡ false)
        × (cash_of account_cash r.trade_notional.currency e
            ≡ neg_ℤ (fill_direction fill) *ℤ r.trade_notional.amount
              -ℤ r.fee.amount
              +ℤ r.rebate.amount)
  unfolding build_fill_journal_entry make_entry cash_in
  build_fill_journal_entry_lem fill r source t v in_currency x h room =
      let k = r.trade_notional.currency in
      let m = validated-IsMatching c fill r v (omega (arith, room)) (omega (arith, room)) in
      let ls = fill_lines (fill_direction fill) r in
      let fine = lines-Fine fill r in_currency in
      let e = fill_entry digest fill ls source t in
      let balanced = (validate_journal_balance_iff e).1 (
        refl,
        h,
        λ currency. currency_sum-Fine currency k ls fine ∙ none_left fill r m (k == currency),
      ) in
      (
        e,
        rw (v, make_lines-Fine k ls fine, id_fits fill, x, text_fits fill.fill_id x, balanced) refl,
        balanced,
        refl,
        rw ((text_eqb_iff k k).1 refl) refl,
        fill-cash fill r m.fee_nonnegative m.rebate_nonnegative,
      )
    where
      id_fits : (fill : Fill) → is_bad_length 128 (derive_fill_journal_entry_id digest fill) ≡ false
      id_fits fill = ground (arith, length-take 32 (digest fill.fill_id))

      text_fits :
          (id : Text)
          → is_bad_length 128 id ≡ false
          → is_bad_length 1024 (str "Fill accounting for " ++ id ++ str ".") ≡ false
      text_fits id h = ground (arith, length-append id (str "."), h)

      none_left :
          (fill : Fill) (r : PositionProjection) (m : IsMatching fill r) (b : Bool)
          → (if b then sum_amounts (fill_lines (fill_direction fill) r) else pos 0) ≡ pos 0
      none_left fill r m true = fill_lines-sum fill r m
      none_left fill r m false = refl
