-- ===== src/Portfolio/Transfers/Conservation.antt =====
-- What a transfer moves between the two balances.
use pmrp.Common.{
  ℕ, ◌≤◌, ◌≡◌, refl, ap, ◌∙◌, Bool, true, false, none, some, List, [], ◌∷◌, ◌++◌, arith, ltb,
  keep_if, All, length, length-take, length-append, if◌then◌else◌,
}
use pmrp.Common.Equality.{◌==◌}
use pmrp.Common.Fields.{is_bad_length, is_empty}
use pmrp.Common.Int.{ℤ, pos, ◌+ℤ◌, ◌-ℤ◌, neg_ℤ, neg_ℤ_parts, int_laws}
use pmrp.Common.Text.{Text, str, text_eq, text_eqb, text_eqb_iff, is_blank_or_padded}
use pmrp.Common.Result.{ok}
use pmrp.Portfolio.Types.{Money, JournalLine, JournalEntry, CashBalance}
use pmrp.Portfolio.Entry.{make_entry, validate_journal_balance}
use pmrp.Portfolio.Entry.Balanced.{validate_journal_balance_iff}
use pmrp.Portfolio.Balances.{mem, is_cash_line, sum_amounts}
use pmrp.Portfolio.Balances.Movement.{IsBalance, cash_of, moved, apply_journal_lem}
use pmrp.Portfolio.Journal.{line}
use pmrp.Portfolio.Journal.Posting.{Fine, line-Fine, make_lines-Fine, currency_sum-Fine}
use pmrp.Portfolio.Transfers.{
  account_cash_transfer, TransferApplication, validate_transfer_id, code_of,
  cash_balance_account_code, validate_transfer_inputs, transfer_id_of, derive_cash_transfer_id,
  transfer_entry, transfer_lines, build_cash_transfer_entry, apply_cash_transfer_once,
}
use pmrp.Portfolio.Transfers.Guards.{IsTransfer, validated-IsTransfer}

text_self : (s : Text) → text_eqb s s ≡ true
text_self s = (text_eqb_iff s s).1 refl

code_fits :
    (b : CashBalance)
    → is_bad_length 128 (code_of b) ≡ false
    → cash_balance_account_code b ≡ ok (code_of b)
unfolding cash_balance_account_code
code_fits b h = let fits : ltb 128 (length (code_of b)) ≡ false = ground (arith, h) in rw fits refl

eqb_comm-false : (s t : Text) → text_eqb s t ≡ false → text_eqb t s ≡ false
eqb_comm-false s t h = ground (arith, text_eqb_iff s t, text_eqb_iff t s, h)

module _ (from to : CashBalance) (amount : Money) (id : Text)
    (v : IsTransfer from to amount id) where
  abbrev lines : List JournalLine
  lines = transfer_lines (code_of from) (code_of to) amount

  lines-Fine : All (Fine amount.currency) lines
  lines-Fine =
      let k = amount.currency in
      (
        line-Fine (code_of from) _ k _ v.from_code_fits refl v.in_currency,
        (
          line-Fine account_cash_transfer _ k _ refl refl v.in_currency,
          (
            line-Fine (code_of to) _ k _ v.to_code_fits refl v.in_currency,
            (line-Fine account_cash_transfer _ k _ refl refl v.in_currency, tt),
          ),
        ),
      )

  lines-sum : (b : Bool) → (if b then sum_amounts lines else pos 0) ≡ pos 0
  lines-sum true = omega (int_laws, neg_ℤ_parts)
  lines-sum false = refl

  from_cash :
      keep_if (is_cash_line (code_of from) from.currency) lines
      ≡ line
          (code_of from)
          (neg_ℤ amount.amount)
          amount.currency
          (str "Cash transfer outbound cash movement.")
        ∷ []
  from_cash =
      rw
        (
          v.from_currency,
          text_self amount.currency,
          text_self from.balance_id,
          eqb_comm-false from.balance_id to.balance_id v.distinct,
        )
        refl

  to_cash :
      keep_if (is_cash_line (code_of to) to.currency) lines
      ≡ line (code_of to) amount.amount amount.currency (str "Cash transfer inbound cash movement.")
        ∷ []
  to_cash = rw (v.to_currency, text_self amount.currency, text_self to.balance_id, v.distinct) refl

-- The guards read nothing that an entry moves.
guards-moved :
    (from to : CashBalance) (e : JournalEntry) (amount : Money) (id : Text)
    → validate_transfer_inputs from to amount id ≡ ok tt
    → validate_transfer_inputs (moved (code_of from) from e) (moved (code_of to) to e) amount id
      ≡ ok tt
unfolding validate_transfer_inputs cash_balance_account_code
guards-moved from to e amount id g = g

module _ (digest : Text → Text) where
  id_fits : (id : Text) → is_bad_length 128 (transfer_id_of digest id) ≡ false
  id_fits id = ground (arith, length-take 32 (digest id))

  text_fits :
      (id : Text)
      → is_bad_length 128 id ≡ false
      → is_bad_length 1024 (str "Cash transfer accounting for " ++ (id ++ str ".")) ≡ false
  text_fits id h = ground (arith, length-append id (str "."), h)

  entry-built :
      (from to : CashBalance) (amount : Money) (id source : Text) (occurred created : ℕ)
      → validate_transfer_inputs from to amount id ≡ ok tt
      → is_bad_length 128 id ≡ false
      → occurred ≤ created
      → build_cash_transfer_entry digest from to amount id source occurred created
        ≡ ok (
            transfer_entry
              (transfer_id_of digest id)
              (transfer_lines (code_of from) (code_of to) amount)
              id
              source
              occurred
              created)
  unfolding build_cash_transfer_entry derive_cash_transfer_id validate_transfer_id make_entry
  entry-built from to amount id source occurred created g fits late =
      let v = validated-IsTransfer from to amount id g in
      let ls = transfer_lines (code_of from) (code_of to) amount in
      let e = transfer_entry (transfer_id_of digest id) ls id source occurred created in
      let fine = lines-Fine from to amount id v in
      let balanced : validate_journal_balance e ≡ ok tt = (validate_journal_balance_iff e).1 (
        refl,
        late,
        λ currency.
            currency_sum-Fine currency amount.currency ls fine
            ∙ lines-sum from to amount id v (amount.currency == currency),
      ) in
      rw
        (
          g,
          v.id_stripped,
          code_fits from v.from_code_fits,
          code_fits to v.to_code_fits,
          make_lines-Fine amount.currency ls fine,
          id_fits id,
          fits,
          text_fits id fits,
          balanced,
        )
        refl

  -- A transfer between valid balances that its guards accept, at a time that is not before either
  -- of them, is applied once: the amount leaves the one and enters the other, both stay valid, their
  -- totals together are as before, and the same transfer applied again is a duplicate.
  pub apply_cash_transfer_once_lem :
      (from to : CashBalance) (amount : Money) (id : Text) (ids : List Text) (source : Text)
      → (occurred created : ℕ) → IsBalance from
      → IsBalance to
      → validate_transfer_inputs from to amount id ≡ ok tt
      → is_bad_length 128 id ≡ false
      → is_blank_or_padded (code_of from) ≡ false
      → is_blank_or_padded (code_of to) ≡ false
      → from.captured_at ≤ occurred
      → to.captured_at ≤ occurred
      → occurred ≤ created
      → mem (transfer_id_of digest id) ids ≡ false
      → (r : TransferApplication) × (apply_cash_transfer_once digest from to amount id ids source
            occurred created
          ≡ ok r)
        × (r.from_balance.available ≡ from.available -ℤ amount.amount)
        × (r.to_balance.available ≡ to.available +ℤ amount.amount)
        × IsBalance r.from_balance
        × IsBalance r.to_balance
        × (r.from_balance.total +ℤ r.to_balance.total ≡ from.total +ℤ to.total)
        × (apply_cash_transfer_once digest r.from_balance r.to_balance amount id
              r.applied_journal_entry_ids source occurred created
            ≡ ok (record {
              from_balance = r.from_balance;
              to_balance = r.to_balance;
              outbound_projection = none;
              inbound_projection = none;
              journal_entry = none;
              applied_journal_entry_ids = r.applied_journal_entry_ids;
              applied = false;
              duplicate_transfer = true;
            }))
  unfolding apply_cash_transfer_once derive_cash_transfer_id validate_transfer_id
  apply_cash_transfer_once_lem from to amount id ids source occurred created vf vt g fits cf ct hf
        ht late fresh =
      let v = validated-IsTransfer from to amount id g in
      let ls = transfer_lines (code_of from) (code_of to) amount in
      let e = transfer_entry (transfer_id_of digest id) ls id source occurred created in
      let built = entry-built from to amount id source occurred created g fits late in
      let from_lines = from_cash from to amount id v in
      let to_lines = to_cash from to amount id v in
      let (out, valid_out) =
        apply_journal_lem (code_of from) from e vf cf hf (ap is_empty from_lines) in
      let (inbound, valid_in) =
        apply_journal_lem (code_of to) to e vt ct ht (ap is_empty to_lines) in
      let out_cash : cash_of (code_of from) from.currency e ≡ neg_ℤ amount.amount =
        ap sum_amounts from_lines ∙ omega int_laws in
      let in_cash : cash_of (code_of to) to.currency e ≡ amount.amount =
        ap sum_amounts to_lines ∙ omega int_laws in
      let from' = moved (code_of from) from e in
      let to' = moved (code_of to) to e in
      (
        record {
          from_balance = from';
          to_balance = to';
          outbound_projection = some (record {
            balance = from';
            cash_delta = record {
              amount = cash_of (code_of from) from.currency e;
              currency = from.currency;
            };
          });
          inbound_projection = some (record {
            balance = to';
            cash_delta = record {
              amount = cash_of (code_of to) to.currency e;
              currency = to.currency;
            };
          });
          journal_entry = some e;
          applied_journal_entry_ids = transfer_id_of digest id ∷ ids;
          applied = true;
          duplicate_transfer = false;
        },
        rw
            (
              g,
              v.id_stripped,
              fresh,
              built,
              code_fits from v.from_code_fits,
              out,
              code_fits to v.to_code_fits,
              inbound,
            )
            refl,
        rw out_cash (omega (int_laws, neg_ℤ_parts)),
        ap (λ (z : ℤ). to.available +ℤ z) in_cash,
        valid_out,
        valid_in,
        rw (out_cash, in_cash) (omega (int_laws, neg_ℤ_parts)),
        rw (guards-moved from to e amount id g, v.id_stripped, text_self (transfer_id_of digest id))
            refl,
      )
