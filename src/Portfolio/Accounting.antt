-- ===== src/Portfolio/Accounting.antt =====
-- One fill through the three projections: the position, the journal entry and the cash balance.
use pmrp.Common.{ℕ, ◌+◌, ◌*◌, ◌≤◌, ◌≡◌, refl, sym, ap, ◌∙◌, subst, true, false, Option, arith}
use pmrp.Common.Fields.{is_bad_length, is_currency}
use pmrp.Common.Int.{ℤ, pos, ◌+ℤ◌, ◌-ℤ◌, ◌*ℤ◌, neg_ℤ, abs_ℤ}
use pmrp.Common.Text.{Text}
use pmrp.Common.Result.{ok}
use pmrp.Portfolio.Types.{Money, JournalEntry, CashBalance, Position, Fill}
use pmrp.Portfolio.Decimals.{Context}
use pmrp.Portfolio.Balances.{account_cash, CashProjection, apply_journal_to_cash_balance}
use pmrp.Portfolio.Balances.Movement.{IsBalance, cash_of, moved, apply_journal_lem}
use pmrp.Portfolio.Average.{carried, fill_direction, signed_fill_quantity}
use pmrp.Portfolio.Positions.{
  fill_money, Existing, existing_state, PositionProjection, projected_position, projection_of,
  apply_fill_to_position,
}
use pmrp.Portfolio.Positions.Projection.{IsMade, apply_fill_to_position_lem}
use pmrp.Portfolio.Journal.{build_fill_journal_entry}
use pmrp.Portfolio.Journal.Accepted.{projection-accepted}
use pmrp.Portfolio.Journal.Posting.{build_fill_journal_entry_lem}

-- What a valid fill carries: its constructor's bounds, with money in the currency.
pub record IsFill (fill : Fill) (currency : Text) (fee rebate : Money) : Type 0 where
  pub positive : 1 ≤ fill.quantity
  pub exchange_fits : is_bad_length 64 fill.exchange ≡ false
  pub id_fits : is_bad_length 128 fill.fill_id ≡ false
  pub in_currency : is_currency currency ≡ true
  pub fee_valid : fill_money fill.fee currency ≡ ok fee
  pub rebate_valid : fill_money fill.rebate currency ≡ ok rebate

module _ (c : Context) (identity : Text → Text → Text → Text → Text → Text)
    (digest : Text → Text) where
  -- A valid fill on a position that passes the guards, and a valid balance in its currency that is
  -- not newer, goes through all three projections: the position moves by the signed quantity, and
  -- the balance stays valid and its available amount moves by the notional against the fill's
  -- direction, less the fee, with the rebate. The position's value at its average, the notional, the
  -- fee and the rebate together fit the context, so that no amount of the fill is rounded.
  pub account_fill :
      (position : Option Position) (fill : Fill) (id : Option Text) (fee rebate : Money)
      (e : Existing)
      → (b : CashBalance) (source : Text) (t : ℕ) → IsFill fill b.currency fee rebate
      → IsMade position
      → existing_state identity position fill b.currency id ≡ ok e
      → IsBalance b
      → b.captured_at ≤ fill.exchange_occurred_at
      → fill.exchange_occurred_at ≤ t
      → carried e.quantity e.average_entry_price
          + fill.quantity * fill.price
          + abs_ℤ fee.amount
          + abs_ℤ rebate.amount
        ≤ c.limit
      → (r : PositionProjection) × (entry : JournalEntry) × (cash : CashProjection)
        × (apply_fill_to_position c identity position fill b.currency id ≡ ok r)
        × (build_fill_journal_entry c digest fill r source t ≡ ok entry)
        × (apply_journal_to_cash_balance account_cash b entry ≡ ok cash)
        × (r.position.quantity ≡ e.quantity +ℤ signed_fill_quantity fill)
        × IsBalance cash.balance
        × (cash.balance.available
            ≡ b.available
              +ℤ (neg_ℤ (fill_direction fill) *ℤ pos (fill.quantity * fill.price)
                  -ℤ fee.amount
                  +ℤ rebate.amount))
  account_fill position fill id fee rebate e b source t f made s v early late room =
      let (w, opened, ran, exact, cost) =
        apply_fill_to_position_lem c identity position fill b.currency id fee rebate e f.in_currency
          f.fee_valid f.rebate_valid s made f.positive f.exchange_fits (omega (arith, room)) in
      let r =
        projection_of c w (projected_position e w opened fill b.currency fee rebate) fill b.currency
          fee rebate in
      let accepted =
        projection-accepted c e.quantity e w opened fill b.currency fee rebate f.fee_valid
          f.rebate_valid exact (omega (arith, room)) (omega (arith, cost, room)) in
      let (entry, built, _, at, has_cash, cash) =
        build_fill_journal_entry_lem c digest fill r source t accepted f.in_currency f.id_fits late
          (omega (arith, cost, room)) in
      let (applied, valid) =
        apply_journal_lem account_cash b entry v refl
          (subst (λ (u : ℕ). b.captured_at ≤ u) (sym at) early) has_cash in
      (
        r,
        entry,
        record {
          balance = moved account_cash b entry;
          cash_delta = record {
            amount = cash_of account_cash b.currency entry;
            currency = b.currency;
          };
        },
        ran,
        built,
        applied,
        exact.moves,
        valid,
        ap (λ (z : ℤ). b.available +ℤ z) cash
            ∙ ap
                (λ (n : ℕ).
                  b.available
                  +ℤ (neg_ℤ (fill_direction fill) *ℤ pos n -ℤ fee.amount +ℤ rebate.amount))
                (c.exact (fill.quantity * fill.price) (omega (arith, room))),
      )
