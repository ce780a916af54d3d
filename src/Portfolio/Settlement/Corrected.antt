-- ===== src/Portfolio/Settlement/Corrected.antt =====
-- A correction of a settlement on the flat position and its balance.
use pmrp.Common.{
  ℕ, ◌+◌, ◌*◌, ◌≤◌, ◌≡◌, ◌∙◌, refl, ap, true, false, not, none, some, List, ◌∷◌, ◌++◌, arith, ltb,
  length-take, length-append,
}
use pmrp.Common.Equality.{◌==◌}
use pmrp.Common.Fields.{is_bad_length}
use pmrp.Common.Int.{ℤ, pos, ◌+ℤ◌, ◌-ℤ◌, ◌*ℤ◌, neg_ℤ, abs_ℤ, neg_ℤ_parts, int_laws}
use pmrp.Common.Text.{Text, str, text_eq}
use pmrp.Common.Result.{ok, bind_inversion, raise_if_inversion}
use pmrp.Portfolio.Types.{JournalEntry, CashBalance, Position, settled, corrected, Settlement}
use pmrp.Portfolio.Decimals.{Context, round_ℤ, abs_mul}
use pmrp.Portfolio.Entry.{make_entry}
use pmrp.Portfolio.Balances.{account_cash, mem}
use pmrp.Portfolio.Balances.Movement.{IsBalance, cash_of, moved, apply_journal_lem}
use pmrp.Portfolio.Positions.{make_position}
use pmrp.Portfolio.Settlement.Amounts.{
  worth, worth_bound, settlement_amounts-exact, differences-exact,
}
use pmrp.Portfolio.Settlement.{
  settlement_amounts, same_status, settlement_accounting, validate_settlement_position,
  settled_position,
}
use pmrp.Portfolio.Settlement.Lines.{three_lines, three_lines-lem}
use pmrp.Portfolio.Settlement.Applied.{settled_position-made, paid}
use pmrp.Portfolio.Settlement.Correction.{
  validate_corrected_settlement, CorrectionAccounting, correction_amounts,
  build_correction_accounting, validate_settlement_correction_identity,
  validate_settlement_correction_application, CorrectionApplication,
  derive_settlement_correction_id, build_settlement_correction_entry,
  apply_settlement_correction_once,
}

-- What a correction needs of the original and the flat position, the balance and the settlements;
-- the cost and both payouts fit the context.
pub record IsCorrectable (c : Context) (p flat : Position) (b : CashBalance)
    (previous s : Settlement) (average payout payout' at : ℕ) : Type 0 where
  pub balance_valid : IsBalance b
  pub accepted : validate_settlement_correction_identity p flat b previous s b.currency ≡ ok tt
  pub corrects : validate_corrected_settlement p previous s b.currency ≡ ok tt
  pub has_average : p.average_entry_price ≡ some average
  pub had_payout : previous.payout_per_unit ≡ some payout
  pub has_payout : s.payout_per_unit ≡ some payout'
  pub is_settled : s.settled_at ≡ some at
  pub made : make_position flat ≡ ok flat
  pub not_early : flat.last_updated_at ≤ at
  pub not_stale : b.captured_at ≤ at
  pub position_id_fits : is_bad_length 128 p.position_id ≡ false
  pub previous_id_fits : is_bad_length 128 previous.settlement_id ≡ false
  pub settlement_id_fits : is_bad_length 128 s.settlement_id ≡ false
  pub room :
      abs_ℤ p.quantity * average + (abs_ℤ p.quantity * payout + abs_ℤ p.quantity * payout')
      ≤ c.limit

-- The differences of the amounts of two settlements with their payouts.
abbrev pub correction_of :
    Context → Position → Settlement → Settlement → Text → ℕ → ℕ → ℕ → CorrectionAccounting
correction_of c p previous s k average payout payout' =
    correction_amounts c (settlement_amounts c p previous k average payout)
      (settlement_amounts c p s k average payout') k

-- The differences are exact: of the cash and the profit by what a unit is worth, and no cost.
pub correction_of-exact :
    (c : Context) (p : Position) (previous s : Settlement) (k : Text) (average payout payout' : ℕ)
    → abs_ℤ p.quantity * average + (abs_ℤ p.quantity * payout + abs_ℤ p.quantity * payout')
      ≤ c.limit
    → let a = correction_of c p previous s k average payout payout' in
      let delta =
        p.quantity *ℤ pos (worth p s payout') -ℤ p.quantity *ℤ pos (worth p previous payout) in
      (a.cash_delta.amount ≡ delta)
      × (a.position_cost_basis_delta.amount ≡ pos 0)
      × (a.settlement_pnl_delta.amount ≡ delta)
correction_of-exact c p previous s k average payout payout' room =
    let q = abs_ℤ p.quantity in
    let (x, v, m) = settlement_amounts-exact c p previous k average payout (omega (arith, room)) in
    let (y, v', n) = settlement_amounts-exact c p s k average payout' (omega (arith, room)) in
    let (cash, cost, pnl) =
      differences-exact c (p.quantity *ℤ pos (worth p previous payout))
        (p.quantity *ℤ pos (worth p s payout')) (p.quantity *ℤ pos average)
        (omega (
          arith,
          abs_mul p.quantity (worth p previous payout),
          abs_mul p.quantity (worth p s payout'),
          worth_bound q p previous payout,
          worth_bound q p s payout',
          room,
        )) in
    (apart x y ∙ cash, apart v v' ∙ cost, apart m n ∙ pnl)
  where
    apart : {a a' b b' : ℤ} → a ≡ a' → b ≡ b' → round_ℤ c (b -ℤ a) ≡ round_ℤ c (b' -ℤ a')
    apart e f = rw (e, f) refl

differences_cancel : (x v n d : ℤ) → x ≡ d → v ≡ pos 0 → n ≡ d → x +ℤ (neg_ℤ v +ℤ neg_ℤ n) ≡ pos 0
differences_cancel x v n d ex ev en = rw (ex, ev, en) (omega (int_laws, neg_ℤ_parts))

corrects-parts :
    (p : Position) (previous s : Settlement) (k : Text)
    → validate_corrected_settlement p previous s k ≡ ok tt
    → (validate_settlement_position p previous k settled ≡ ok tt)
      × (validate_settlement_position p s k corrected ≡ ok tt)
unfolding validate_corrected_settlement
corrects-parts p previous s k h =
    let h1 = raise_if_inversion (not (same_status s.status corrected)) _ _ h in
    let h2 =
      raise_if_inversion
        (elim s.correction_of_settlement_id [
          | none ↦ true
          | some id ↦ not (id == previous.settlement_id)
        ])
        _ _ h1.1 in
    bind_inversion (validate_settlement_position p previous k settled) _ h2.1

module _ (c : Context) (digest : Text → Text → Text → Text) where
  id_fits :
      (p : Position) (previous s : Settlement)
      → is_bad_length 128 (derive_settlement_correction_id digest p previous s) ≡ false
  id_fits p previous s =
      ground (arith, length-take 32 (digest s.settlement_id p.position_id previous.settlement_id))

  text_fits :
      (id other : Text)
      → is_bad_length 128 id ≡ false
      → is_bad_length 128 other ≡ false
      → is_bad_length 1024 (
          str "Settlement correction accounting for "
          ++ (id ++ (str " replacing " ++ (other ++ str "."))))
        ≡ false
  text_fits id other h k = ground (
    arith,
    length-append id (str " replacing " ++ (other ++ str ".")),
    length-append other (str "."),
    h,
    k,
  )

  abbrev correction_entry :
      Position → Settlement → Settlement → CorrectionAccounting → ℕ → Text → ℕ → JournalEntry
  correction_entry p previous s a at source t = record {
    journal_entry_id = derive_settlement_correction_id digest p previous s;
    occurred_at = at;
    source_event_id = source;
    reference_type = str "settlement";
    reference_id = s.settlement_id;
    lines =
        three_lines a.cash_delta.currency a.cash_delta.amount
          (neg_ℤ a.position_cost_basis_delta.amount) (neg_ℤ a.settlement_pnl_delta.amount)
          (str "Settlement correction cash delta.")
          (str "Settlement correction position cost delta.")
          (str "Settlement correction PnL delta.");
    description =
        str "Settlement correction accounting for "
        ++ (p.position_id ++ (str " replacing " ++ (previous.settlement_id ++ str ".")));
    created_at = t;
  }

  differences_ran :
      (p flat : Position) (b : CashBalance) (previous s : Settlement)
      (average payout payout' at : ℕ)
      → IsCorrectable c p flat b previous s average payout payout' at
      → build_correction_accounting c p previous s b.currency
        ≡ ok (correction_of c p previous s b.currency average payout payout')
  unfolding build_correction_accounting settlement_accounting
  differences_ran p flat b previous s average payout payout' at v =
      let (before, after) = corrects-parts p previous s b.currency v.corrects in
      rw
        (
          v.balance_valid.in_currency, v.corrects, before, after, v.had_payout, v.has_average,
          v.has_payout,
        )
        refl

  -- A correction that its guards accept moves the flat position's realized amount and the balance
  -- by the differences of the two settlements' profits and payouts, and keeps the balance valid.
  pub apply_settlement_correction_once_lem :
      (p flat : Position) (b : CashBalance) (previous s : Settlement)
      (average payout payout' at : ℕ)
      → (ids : List Text) (source : Text) (t : ℕ)
      → IsCorrectable c p flat b previous s average payout payout' at
      → at ≤ t
      → mem (derive_settlement_correction_id digest p previous s) ids ≡ false
      → (d : CorrectionApplication) × (apply_settlement_correction_once c digest p flat b previous s
            ids b.currency source t
          ≡ ok d)
        × (d.position
            ≡ settled_position flat
                (correction_of c p previous s b.currency average payout
                  payout').settlement_pnl_delta.amount
                at
                b.currency)
        × IsBalance d.cash_balance
        × (d.cash_balance
            ≡ paid b
                (correction_of c p previous s b.currency average payout payout').cash_delta.amount
                at)
  unfolding apply_settlement_correction_once build_settlement_correction_entry make_entry
      validate_settlement_correction_application
  apply_settlement_correction_once_lem p flat b previous s average payout payout' at ids source t v
        late fresh =
      let k = b.currency in
      let a = correction_of c p previous s k average payout payout' in
      let e = correction_entry p previous s a at source t in
      let (cash_is, cost_is, pnl_is) =
        correction_of-exact c p previous s k average payout payout' v.room in
      let (made, balanced, has_cash, cash) =
        three_lines-lem e k a.cash_delta.amount (neg_ℤ a.position_cost_basis_delta.amount)
          (neg_ℤ a.settlement_pnl_delta.amount) (str "Settlement correction cash delta.")
          (str "Settlement correction position cost delta.")
          (str "Settlement correction PnL delta.") refl v.balance_valid.in_currency refl refl refl
          (differences_cancel a.cash_delta.amount a.position_cost_basis_delta.amount
            a.settlement_pnl_delta.amount _ cash_is cost_is pnl_is)
          late in
      let (moved_ok, valid) =
        apply_journal_lem account_cash b e v.balance_valid refl v.not_stale has_cash in
      let id = derive_settlement_correction_id digest p previous s in
      let ran = differences_ran p flat b previous s average payout payout' at v in
      let built : build_settlement_correction_entry c digest p previous s k source t ≡ ok e =
        rw
          (
            ran,
            v.is_settled,
            made,
            id_fits p previous s,
            v.settlement_id_fits,
            text_fits p.position_id previous.settlement_id v.position_id_fits v.previous_id_fits,
            balanced,
          )
          refl in
      let early : ltb at flat.last_updated_at ≡ false = ground (arith, v.not_early) in
      let position = settled_position flat a.settlement_pnl_delta.amount at k in
      let position_made = settled_position-made flat a.settlement_pnl_delta.amount at k v.made in
      let balance = moved account_cash b e in
      (
        record {
          position = position;
          cash_balance = balance;
          correction_accounting = some a;
          cash_projection = some (record {
            balance = balance;
            cash_delta = record { amount = cash_of account_cash k e; currency = k };
          });
          journal_entry = some e;
          applied_journal_entry_ids = id ∷ ids;
          applied = true;
          duplicate_correction = false;
        },
        rw
            (
              v.balance_valid.in_currency, v.accepted, fresh, built, ran, v.is_settled, early,
              moved_ok, position_made,
            )
            refl,
        refl,
        valid,
        ap (λ (z : ℤ). paid b z at) cash,
      )
