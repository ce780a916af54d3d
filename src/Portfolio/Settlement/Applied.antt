-- ===== src/Portfolio/Settlement/Applied.antt =====
-- A settlement on a position and its cash balance, by its own amounts.
use pmrp.Common.{
  ℕ, ◌+◌, ◌*◌, ◌≤◌, ◌≡◌, refl, ap, true, false, none, some, List, ◌∷◌, ◌++◌, arith, ltb,
  length-take, length-append,
}
use pmrp.Common.Fields.{is_bad_length}
use pmrp.Common.Int.{ℤ, pos, ◌+ℤ◌, ◌-ℤ◌, ◌*ℤ◌, neg_ℤ, abs_ℤ, neg_ℤ_parts, int_laws}
use pmrp.Common.Text.{Text, str, text_eq, text_eqb_iff}
use pmrp.Common.Result.{ok, raise_if_inversion}
use pmrp.Portfolio.Types.{JournalEntry, CashBalance, Position, settled, Settlement}
use pmrp.Portfolio.Decimals.{Context}
use pmrp.Portfolio.Entry.{make_entry}
use pmrp.Portfolio.Balances.{account_cash, mem}
use pmrp.Portfolio.Balances.Movement.{IsBalance, cash_of, moved, apply_journal_lem}
use pmrp.Portfolio.Positions.{make_position}
use pmrp.Portfolio.Positions.Projection.{nonnegative_fees}
use pmrp.Portfolio.Settlement.Amounts.{worth, settlement_amounts-exact}
use pmrp.Portfolio.Settlement.{
  settlement_amounts, settlement_accounting, validate_settlement_position,
  build_settlement_accounting_result, settled_position, apply_settlement_to_position,
  validate_cash_balance_for_position, SettlementApplication, derive_settlement_id,
  build_settlement_journal_entry, apply_settlement_once,
}
use pmrp.Portfolio.Settlement.Lines.{three_lines, three_lines-lem}

-- What a settlement of the position at a time needs; its cost and payout fit the context.
pub record IsSettleable (c : Context) (p : Position) (b : CashBalance) (s : Settlement)
    (average payout at : ℕ) : Type 0 where
  pub balance_valid : IsBalance b
  pub same_account : validate_cash_balance_for_position b p b.currency ≡ ok tt
  pub settles : validate_settlement_position p s b.currency settled ≡ ok tt
  pub has_average : p.average_entry_price ≡ some average
  pub has_payout : s.payout_per_unit ≡ some payout
  pub is_settled : s.settled_at ≡ some at
  pub made : make_position p ≡ ok p
  pub not_early : p.last_updated_at ≤ at
  pub not_stale : b.captured_at ≤ at
  pub position_id_fits : is_bad_length 128 p.position_id ≡ false
  pub settlement_id_fits : is_bad_length 128 s.settlement_id ≡ false
  pub room : abs_ℤ p.quantity * average + abs_ℤ p.quantity * payout ≤ c.limit

-- A balance that takes an amount at a time.
abbrev pub paid : CashBalance → ℤ → ℕ → CashBalance
paid b z at = record b { available = b.available +ℤ z; total = b.total +ℤ z; captured_at = at }

exchange_fits : (p : Position) → make_position p ≡ ok p → is_bad_length 64 p.exchange ≡ false
unfolding make_position
exchange_fits p h = (raise_if_inversion (is_bad_length 64 p.exchange) _ _ h).0

-- The position that a settlement leaves is accepted by its constructor.
pub settled_position-made :
    (p : Position) (pnl : ℤ) (at : ℕ) (currency : Text)
    → make_position p ≡ ok p
    → make_position (settled_position p pnl at currency) ≡ ok (settled_position p pnl at currency)
unfolding make_position
settled_position-made p pnl at currency h =
    let (fees, rebates) = nonnegative_fees p h in rw (exchange_fits p h, fees, rebates) refl

accounting_cancels :
    (c v n c' v' : ℤ) → c ≡ c' → v ≡ v' → n ≡ c' -ℤ v' → c +ℤ (neg_ℤ v +ℤ neg_ℤ n) ≡ pos 0
accounting_cancels c v n c' v' ec ev en = rw (ec, ev, en) (omega (int_laws, neg_ℤ_parts))

module _ (c : Context) (digest : Text → Text → Text) where
  -- The entry that a settlement writes.
  abbrev settlement_entry : Position → Settlement → Text → ℕ → ℕ → ℕ → Text → ℕ → JournalEntry
  settlement_entry p s currency average payout at source t =
      let a = settlement_amounts c p s currency average payout in
      record {
        journal_entry_id = derive_settlement_id digest p s;
        occurred_at = at;
        source_event_id = source;
        reference_type = str "settlement";
        reference_id = s.settlement_id;
        lines =
            three_lines currency a.cash_delta.amount (neg_ℤ a.position_cost_basis.amount)
              (neg_ℤ a.settlement_pnl.amount) (str "Settlement cash movement.")
              (str "Settlement clears position cost basis.") (str "Settlement PnL offset.");
        description = str "Settlement accounting for " ++ p.position_id ++ str ".";
        created_at = t;
      }

  id_fits :
      (p : Position) (s : Settlement) → is_bad_length 128 (derive_settlement_id digest p s) ≡ false
  id_fits p s = ground (arith, length-take 32 (digest p.position_id s.settlement_id))

  text_fits :
      (id : Text)
      → is_bad_length 128 id ≡ false
      → is_bad_length 1024 (str "Settlement accounting for " ++ id ++ str ".") ≡ false
  text_fits id h = ground (arith, length-append id (str "."), h)

  accounting_ran :
      (p : Position) (b : CashBalance) (s : Settlement) (average payout at : ℕ)
      → IsSettleable c p b s average payout at
      → build_settlement_accounting_result c p s b.currency
        ≡ ok (settlement_amounts c p s b.currency average payout)
  unfolding build_settlement_accounting_result settlement_accounting
  accounting_ran p b s average payout at v =
      rw (v.balance_valid.in_currency, v.settles, v.has_payout, v.has_average) refl

  position_ran :
      (p : Position) (b : CashBalance) (s : Settlement) (average payout at : ℕ)
      → IsSettleable c p b s average payout at
      → apply_settlement_to_position c p s b.currency
        ≡ ok (record {
          position =
              settled_position p
                (settlement_amounts c p s b.currency average payout).settlement_pnl.amount
                at
                b.currency;
          settlement_accounting = settlement_amounts c p s b.currency average payout;
        })
  unfolding apply_settlement_to_position
  position_ran p b s average payout at v =
      let pnl = (settlement_amounts c p s b.currency average payout).settlement_pnl.amount in
      let early : ltb at p.last_updated_at ≡ false = ground (arith, v.not_early) in
      rw
        (
          v.balance_valid.in_currency,
          v.settles,
          accounting_ran p b s average payout at v,
          v.is_settled,
          early,
          settled_position-made p pnl at b.currency v.made,
        )
        refl

  -- The flat position and the balance that a settlement leaves, and the duplicate after it.
  pub settled_once :
      (p : Position) (b : CashBalance) (s : Settlement) (average payout at : ℕ)
      → (ids : List Text) (source : Text) (t u : ℕ) → IsSettleable c p b s average payout at
      → at ≤ t
      → mem (derive_settlement_id digest p s) ids ≡ false
      → (r : SettlementApplication) × (apply_settlement_once c digest p b s ids b.currency source t
          ≡ ok r)
        × (r.position
            ≡ settled_position p
                (settlement_amounts c p s b.currency average payout).settlement_pnl.amount
                at
                b.currency)
        × IsBalance r.cash_balance
        × (r.cash_balance
            ≡ paid b (settlement_amounts c p s b.currency average payout).cash_delta.amount at)
        × (apply_settlement_once c digest r.position r.cash_balance s r.applied_journal_entry_ids
              b.currency source u
            ≡ ok (record {
              position = r.position;
              cash_balance = r.cash_balance;
              position_projection = none;
              cash_projection = none;
              journal_entry = none;
              applied_journal_entry_ids = r.applied_journal_entry_ids;
              applied = false;
              duplicate_settlement = true;
            }))
  unfolding apply_settlement_once build_settlement_journal_entry make_entry
      validate_cash_balance_for_position
  settled_once p b s average payout at ids source t u v late fresh =
      let k = b.currency in
      let a = settlement_amounts c p s k average payout in
      let e = settlement_entry p s k average payout at source t in
      let (cash_is, cost_is, pnl_is) = settlement_amounts-exact c p s k average payout v.room in
      let (made, balanced, has_cash, cash) =
        three_lines-lem e k a.cash_delta.amount (neg_ℤ a.position_cost_basis.amount)
          (neg_ℤ a.settlement_pnl.amount) (str "Settlement cash movement.")
          (str "Settlement clears position cost basis.") (str "Settlement PnL offset.") refl
          v.balance_valid.in_currency refl refl refl
          (accounting_cancels a.cash_delta.amount a.position_cost_basis.amount
            a.settlement_pnl.amount (p.quantity *ℤ pos (worth p s payout))
            (p.quantity *ℤ pos average) cash_is cost_is pnl_is)
          late in
      let (moved_ok, valid) =
        apply_journal_lem account_cash b e v.balance_valid refl v.not_stale has_cash in
      let id = derive_settlement_id digest p s in
      let built : build_settlement_journal_entry c digest p s k source t ≡ ok e =
        rw
          (
            accounting_ran p b s average payout at v,
            v.is_settled,
            made,
            id_fits p s,
            v.settlement_id_fits,
            text_fits p.position_id v.position_id_fits,
            balanced,
          )
          refl in
      let projected = position_ran p b s average payout at v in
      let position = settled_position p a.settlement_pnl.amount at k in
      let balance = moved account_cash b e in
      (
        record {
          position = position;
          cash_balance = balance;
          position_projection = some (record { position = position; settlement_accounting = a });
          cash_projection = some (record {
            balance = balance;
            cash_delta = record { amount = cash_of account_cash k e; currency = k };
          });
          journal_entry = some e;
          applied_journal_entry_ids = id ∷ ids;
          applied = true;
          duplicate_settlement = false;
        },
        rw (v.balance_valid.in_currency, v.same_account, fresh, projected, built, moved_ok) refl,
        refl,
        valid,
        ap (λ (z : ℤ). paid b z at) cash,
        rw (v.balance_valid.in_currency, v.same_account, (text_eqb_iff id id).1 refl) refl,
      )
