-- ===== src/Portfolio/Balances/Correction.antt =====
-- What a correction by an observed balance does to a cash balance.
use pmrp.Common.{
  ℕ, ◌≤◌, ◌≡◌, refl, inl, inr, true, false, none, some, List, [], ◌∷◌, arith, ltb, keep_if, ◌++◌,
  length-take, length-append, Bool-cases,
}
use pmrp.Common.Equality.{◌==◌}
use pmrp.Common.Fields.{is_bad_length, is_empty}
use pmrp.Common.Int.{ℤ, pos, ◌+ℤ◌, ◌-ℤ◌, neg_ℤ, neg_ℤ_parts, -ℤ_parts, eqb_ℤ, parts_of_eq, int_laws}
use pmrp.Common.Text.{Text, str, text_eq, text_eqb_iff}
use pmrp.Common.Result.{ok, raise_if_inversion, bind_inversion}
use pmrp.Portfolio.Types.{JournalEntry, CashBalance}
use pmrp.Portfolio.Entry.{make_line, make_entry, validate_journal_balance}
use pmrp.Portfolio.Entry.Balanced.{currency_sum, validate_journal_balance_iff, eqb_ℤ_iff}
use pmrp.Portfolio.Balances.{
  account_cash, account_balance_correction, CashCorrection, mem, is_cash_line, correction_line,
  validate_correction_identity, validate_correction_application, derive_correction_id,
  build_correction_entry, apply_balance_correction_once,
}
use pmrp.Portfolio.Balances.Movement.{IsBalance, moved, apply_journal_lem, cash_of}

-- The entry that a correction writes.
module _ (digest : Text → ℤ → ℕ → ℤ → Text → Text) where
  abbrev pub correction_entry : CashBalance → CashBalance → Text → Text → ℕ → JournalEntry
  correction_entry b o reference source t = record {
    journal_entry_id = derive_correction_id digest b o reference;
    occurred_at = o.captured_at;
    source_event_id = source;
    reference_type = str "balance_correction";
    reference_id = reference;
    lines =
        correction_line account_cash (o.available -ℤ b.available) b.currency
          (str "Balance correction cash movement.")
        ∷ correction_line account_balance_correction (neg_ℤ (o.available -ℤ b.available)) b.currency
            (str "Balance correction offset.")
        ∷ [];
    description = str "Cash balance correction for " ++ b.balance_id ++ str ".";
    created_at = t;
  }

  id_fits :
      (b o : CashBalance) (reference : Text)
      → is_bad_length 128 (derive_correction_id digest b o reference) ≡ false
  id_fits b o reference =
      ground
        (arith, length-take 32 (digest b.balance_id o.available o.captured_at o.total reference))

  description_fits :
      (id : Text)
      → is_bad_length 128 id ≡ false
      → is_bad_length 1024 (str "Cash balance correction for " ++ id ++ str ".") ≡ false
  description_fits id h = ground (arith, length-append id (str "."), h)

  -- The two lines of a correction sum to zero in every currency.
  correction-balanced :
      (b o : CashBalance) (reference source : Text) (t : ℕ)
      → o.captured_at ≤ t
      → validate_journal_balance (correction_entry b o reference source t) ≡ ok tt
  correction-balanced b o reference source t h =
      (validate_journal_balance_iff (correction_entry b o reference source t)).1 (refl, h, sums)
    where
      sums : (c : Text) → currency_sum c (correction_entry b o reference source t).lines ≡ pos 0
      sums c =
          let z = o.available -ℤ b.available in
          elim (Bool-cases (b.currency == c)) [
            | inl same ↦ rw same (omega (int_laws, neg_ℤ_parts z))
            | inr other ↦ rw other refl
          ]

  build-entry :
      (b o : CashBalance) (reference source : Text) (t : ℕ)
      → IsBalance b
      → validate_correction_application b o reference ≡ ok tt
      → eqb_ℤ o.available b.available ≡ false
      → is_bad_length 128 reference ≡ false
      → o.captured_at ≤ t
      → build_correction_entry digest b o reference source t
        ≡ ok (correction_entry b o reference source t)
  unfolding build_correction_entry make_line make_entry
  build-entry b o reference source t v guards moves fits late =
      let delta : eqb_ℤ (o.available -ℤ b.available) (pos 0) ≡ false =
        ground (arith, -ℤ_parts o.available b.available, moves) in
      rw
        (
          guards,
          delta,
          v.in_currency,
          id_fits b o reference,
          fits,
          description_fits b.balance_id v.id_fits,
          correction-balanced b o reference source t late,
        )
        refl

  -- The balance that a correction leaves: the observed amounts and time.
  abbrev pub corrected : CashBalance → CashBalance → CashBalance
  corrected b o = record b { available = o.available; total = o.total; captured_at = o.captured_at }

  moved-corrected :
      (b o : CashBalance) (reference source : Text) (t : ℕ)
      → IsBalance b
      → IsBalance o
      → o.reserved ≡ b.reserved
      → moved account_cash b (correction_entry b o reference source t) ≡ corrected b o
  moved-corrected b o reference source t v w r =
      let delta = o.available -ℤ b.available in
      let cash : cash_of account_cash b.currency (correction_entry b o reference source t) ≡ delta =
        rw ((text_eqb_iff b.currency b.currency).1 refl) (omega int_laws) in
      let available : b.available +ℤ delta ≡ o.available = omega int_laws in
      let total : b.total +ℤ delta ≡ o.total =
        omega (int_laws, parts_of_eq v.adds_up, parts_of_eq w.adds_up, parts_of_eq r) in
      rw (cash, available, total) refl

  -- A correction that passes its guards, and moves the available amount, is applied once: the
  -- balance takes the observed amounts and time and stays valid, and the same correction applied to
  -- the new balance with the recorded identifiers is a duplicate that leaves the balance.
  pub apply_correction_lem :
      (b o : CashBalance) (ids : List Text) (reference source : Text) (t u : ℕ)
      → IsBalance b
      → IsBalance o
      → validate_correction_application b o reference ≡ ok tt
      → eqb_ℤ o.available b.available ≡ false
      → is_bad_length 128 reference ≡ false
      → o.captured_at ≤ t
      → mem (derive_correction_id digest b o reference) ids ≡ false
      → (c : CashCorrection) × (apply_balance_correction_once digest b o ids reference source t
          ≡ ok c)
        × (c.balance ≡ corrected b o)
        × IsBalance c.balance
        × (c.applied ≡ true)
        × (apply_balance_correction_once digest c.balance o c.applied_journal_entry_ids reference
              source u
            ≡ ok (record {
              balance = c.balance;
              cash_projection = none;
              journal_entry = none;
              applied_journal_entry_ids = c.applied_journal_entry_ids;
              applied = false;
              duplicate_correction = true;
            }))
  unfolding apply_balance_correction_once validate_correction_application
      validate_correction_identity
  apply_correction_lem b o ids reference source t u v w guards moves fits late fresh =
      let identity = bind_inversion (validate_correction_identity b o reference) _ guards in
      let ordered = raise_if_inversion (ltb o.captured_at b.captured_at) _ _ identity.1 in
      let same : o.reserved ≡ b.reserved =
        (eqb_ℤ_iff o.reserved b.reserved).0 (ground (arith, ordered.1)) in
      let e = correction_entry b o reference source t in
      let b' = moved account_cash b e in
      let id = derive_correction_id digest b o reference in
      let has_line : is_empty (keep_if (is_cash_line account_cash b.currency) e.lines) ≡ false =
        rw ((text_eqb_iff b.currency b.currency).1 refl) refl in
      let (step, valid) =
        apply_journal_lem account_cash b e v refl (ground (arith, ordered.0)) has_line in
      let built = build-entry b o reference source t v guards moves fits late in
      (
        record {
          balance = b';
          cash_projection = some (record {
            balance = b';
            cash_delta = record {
              amount = cash_of account_cash b.currency e;
              currency = b.currency;
            };
          });
          journal_entry = some e;
          applied_journal_entry_ids = id ∷ ids;
          applied = true;
          duplicate_correction = false;
        },
        rw (identity.0, fresh, built, step) refl,
        moved-corrected b o reference source t v w same,
        valid,
        refl,
        rw (identity.0, (text_eqb_iff id id).1 refl) refl,
      )
