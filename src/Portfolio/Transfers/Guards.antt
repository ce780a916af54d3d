-- ===== src/Portfolio/Transfers/Guards.antt =====
-- The guards of a transfer.
use pmrp.Common.{ℕ, ◌≡◌, sym, ◌∙◌, true, false, not, List, arith, length, ltb}
use pmrp.Common.Equality.{◌==◌}
use pmrp.Common.Fields.{is_bad_length, is_currency}
use pmrp.Common.Int.{pos, leb_ℤ, ltb_ℤ}
use pmrp.Common.Text.{Text, text_eq, text_eqb, text_eqb_iff, is_blank_or_padded}
use pmrp.Common.Result.{ok, raise_if_inversion, bind_inversion, bind_value}
use pmrp.Portfolio.Types.{Money, CashBalance}
use pmrp.Portfolio.Transfers.{
  TransferApplication, validate_transfer_id, code_of, cash_balance_account_code,
  validate_transfer_inputs, apply_cash_transfer_once,
}

-- A positive amount between two balances of its currency, with an identifier and account codes
-- that fit.
pub record IsTransfer (from to : CashBalance) (amount : Money) (id : Text) : Type 0 where
  pub id_stripped : is_blank_or_padded id ≡ false
  pub distinct : text_eqb from.balance_id to.balance_id ≡ false
  pub from_currency : from.currency ≡ amount.currency
  pub to_currency : to.currency ≡ amount.currency
  pub in_currency : is_currency amount.currency ≡ true
  pub positive : ltb_ℤ (pos 0) amount.amount ≡ true
  pub from_code_fits : is_bad_length 128 (code_of from) ≡ false
  pub to_code_fits : is_bad_length 128 (code_of to) ≡ false

same-text : (s t : Text) → not (text_eqb s t) ≡ false → s ≡ t
same-text s t h = (text_eqb_iff s t).0 (ground (arith, h))

code_fits :
    (b : CashBalance) → ltb 128 (length (code_of b)) ≡ false → is_bad_length 128 (code_of b) ≡ false
code_fits b h = ground (arith, h)

pub validated-IsTransfer :
    (from to : CashBalance) (amount : Money) (id : Text)
    → validate_transfer_inputs from to amount id ≡ ok tt
    → IsTransfer from to amount id
unfolding validate_transfer_inputs validate_transfer_id cash_balance_account_code
validated-IsTransfer from to amount id h =
    let h1 = raise_if_inversion (is_blank_or_padded id) _ _ h in
    let h2 = raise_if_inversion (from.balance_id == to.balance_id) _ _ h1.1 in
    let h3 = raise_if_inversion (not (from.currency == to.currency)) _ _ h2.1 in
    let h4 = raise_if_inversion (not (is_currency amount.currency)) _ _ h3.1 in
    let h5 = raise_if_inversion (not (from.currency == amount.currency)) _ _ h4.1 in
    let h6 = raise_if_inversion (leb_ℤ amount.amount (pos 0)) _ _ h5.1 in
    let h7 = bind_value (cash_balance_account_code from) _ h6.1 in
    let h8 = bind_value (cash_balance_account_code to) _ h7.2 in
    let from_fits = raise_if_inversion (ltb 128 (length (code_of from))) _ _ h7.1 in
    let to_fits = raise_if_inversion (ltb 128 (length (code_of to))) _ _ h8.1 in
    let same = same-text from.currency to.currency h3.0 in
    let in_from = same-text from.currency amount.currency h5.0 in
    record {
      id_stripped = h1.0;
      distinct = h2.0;
      from_currency = in_from;
      to_currency = sym same ∙ in_from;
      in_currency = ground (arith, h4.0);
      positive = ground (arith, h6.0);
      from_code_fits = code_fits from from_fits.0;
      to_code_fits = code_fits to to_fits.0;
    }

module _ (digest : Text → Text) where
  -- A transfer that returns, even as a duplicate, had valid inputs: it raises for an amount that is
  -- not positive, for balances that are the same or not in its currency, and for an identifier that
  -- is blank or padded.
  pub apply_cash_transfer_once-guarded :
      (from to : CashBalance) (amount : Money) (id : Text) (ids : List Text) (source : Text)
      → (occurred created : ℕ) (r : TransferApplication)
      → apply_cash_transfer_once digest from to amount id ids source occurred created ≡ ok r
      → IsTransfer from to amount id
  unfolding apply_cash_transfer_once
  apply_cash_transfer_once-guarded from to amount id ids source occurred created r h =
      validated-IsTransfer from to amount id
        (bind_inversion (validate_transfer_inputs from to amount id) _ h).0
