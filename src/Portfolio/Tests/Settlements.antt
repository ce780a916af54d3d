-- ===== src/Portfolio/Tests/Settlements.antt =====
-- The theorems of settlements and transfers at a long position that won and at two wallets.
use pmrp.Common.{◌≡◌, refl, true, false, none, some, [], ◌∷◌, arith}
use pmrp.Common.Int.{pos, ◌+ℤ◌, ◌-ℤ◌}
use pmrp.Common.Text.{Text, str}
use pmrp.Common.Result.{ok}
use pmrp.Portfolio.Types.{CashBalance, settled, corrected, Settlement}
use pmrp.Portfolio.Balances.Movement.{IsBalance}
use pmrp.Portfolio.Transfers.{
  TransferApplication, validate_transfer_id, cash_balance_account_code, validate_transfer_inputs,
  derive_cash_transfer_id, apply_cash_transfer_once,
}
use pmrp.Portfolio.Transfers.Guards.{IsTransfer, apply_cash_transfer_once-guarded}
use pmrp.Portfolio.Transfers.Conservation.{apply_cash_transfer_once_lem}
use pmrp.Portfolio.Tests.{wallet, wallet-IsBalance}
use pmrp.Portfolio.Tests.Fills.{usd_money, id_digest}

-- The position's outcome wins 30 for each unit.
abbrev won : Settlement
won = record {
  settlement_id = str "s1";
  market_id = str "m";
  exchange = str "kalshi";
  status = settled;
  winning_outcome_ids = str "yes" ∷ [];
  settled_at = some 20;
  payout_per_unit = some 30;
  correction_of_settlement_id = none;
}

-- The correction: the other outcome won.
abbrev lost : Settlement
lost = record won {
  settlement_id = str "s2";
  status = corrected;
  winning_outcome_ids = str "no" ∷ [];
  settled_at = some 25;
  correction_of_settlement_id = some (str "s1");
}

abbrev pair_digest : Text → Text → Text
pair_digest a b = b

abbrev triple_digest : Text → Text → Text → Text
triple_digest a b c = a

abbrev savings : CashBalance
savings = record wallet {
  balance_id = str "cash_2";
  available = pos 40;
  reserved = pos 0;
  total = pos 40;
}

savings-IsBalance : IsBalance savings
unfolding ◌+ℤ◌
savings-IsBalance = record {
  id_fits = refl;
  exchange_fits = refl;
  in_currency = refl;
  reserved_nonnegative = refl;
  adds_up = refl;
}

apply_cash_transfer_once_lem_example :
    (r : TransferApplication) × (apply_cash_transfer_once id_digest wallet savings
        (usd_money 300)
        (str "t1")
        []
        (str "ev6")
        8
        9
      ≡ ok r)
    × (r.from_balance.available ≡ pos 900 -ℤ pos 300)
    × (r.to_balance.available ≡ pos 40 +ℤ pos 300)
    × IsBalance r.from_balance
    × IsBalance r.to_balance
    × (r.from_balance.total +ℤ r.to_balance.total ≡ pos 1000 +ℤ pos 40)
    × (apply_cash_transfer_once id_digest r.from_balance r.to_balance
          (usd_money 300)
          (str "t1")
          r.applied_journal_entry_ids
          (str "ev6")
          8
          9
        ≡ ok (record {
          from_balance = r.from_balance;
          to_balance = r.to_balance;
          outbound_projection = none;
          inbound_projection = none;
          journal_entry = none;
          applied_journal_entry_ids = r.applied_journal_entry_ids;
          applied = false;
          duplicate_transfer = true;
        }))
unfolding validate_transfer_inputs validate_transfer_id cash_balance_account_code
apply_cash_transfer_once_lem_example =
    apply_cash_transfer_once_lem id_digest wallet savings (usd_money 300) (str "t1") [] (str "ev6")
      8 9 wallet-IsBalance savings-IsBalance refl refl refl refl (omega arith) (omega arith)
      (omega arith) refl

apply_cash_transfer_once-guarded_example : IsTransfer wallet savings (usd_money 300) (str "t1")
unfolding apply_cash_transfer_once derive_cash_transfer_id validate_transfer_inputs
    validate_transfer_id cash_balance_account_code
apply_cash_transfer_once-guarded_example =
    apply_cash_transfer_once-guarded id_digest wallet savings (usd_money 300) (str "t1")
      (str "journal_cash_transfer_t1" ∷ []) (str "ev6") 8 9
      (record {
        from_balance = wallet;
        to_balance = savings;
        outbound_projection = none;
        inbound_projection = none;
        journal_entry = none;
        applied_journal_entry_ids = str "journal_cash_transfer_t1" ∷ [];
        applied = false;
        duplicate_transfer = true;
      })
      refl
