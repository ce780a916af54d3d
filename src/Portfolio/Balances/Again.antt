-- ===== src/Portfolio/Balances/Again.antt =====
-- A second replay of the same journal entries, with the identifiers that the first one recorded.
use pmrp.Common.{◌≡◌, refl, subst, inl, inr, true, false, some, List, [], ◌∷◌, arith, Bool-cases}
use pmrp.Common.Text.{Text, text_eq, text_eqb_iff}
use pmrp.Common.Result.{Result, ok, raise, ◌>>=◌}
use pmrp.Portfolio.Types.{PortfolioError, JournalEntry, CashBalance}
use pmrp.Portfolio.Balances.{
  account_cash, CashProjection, CashApplication, mem, apply_journal_to_cash_balance,
  apply_journal_to_cash_balance_once,
}
use pmrp.Portfolio.Balances.Movement.{apply_entries}

-- Each entry's identifier is among those applied.
abbrev AllKnown : List Text → List JournalEntry → Type 0
AllKnown ids [] = Unit
AllKnown ids (e ∷ es) = (mem e.journal_entry_id ids ≡ true) × AllKnown ids es

apply_known :
    (b : CashBalance) (ids : List Text) (es : List JournalEntry)
    → AllKnown ids es
    → apply_entries b ids es ≡ ok (b, ids)
unfolding apply_journal_to_cash_balance_once
apply_known b ids [] k = refl
apply_known b ids (e ∷ es) k = rw k.0 (apply_known b ids es k.1)

Included : List Text → List Text → Type 0
Included ids ids' = (x : Text) → mem x ids ≡ true → mem x ids' ≡ true

mem_self : (x : Text) (ids : List Text) → mem x (x ∷ ids) ≡ true
mem_self x ids = rw ((text_eqb_iff x x).1 refl) refl

mem_other : (x y : Text) (ids : List Text) → mem x ids ≡ true → mem x (y ∷ ids) ≡ true
mem_other x y ids h = ground (arith, h)

Recorded : Text → List Text → Result PortfolioError CashApplication → Type 0
Recorded id ids (ok r) =
    (mem id r.applied_journal_entry_ids ≡ true) × Included ids r.applied_journal_entry_ids
Recorded id ids (raise x) = Unit

-- An entry that is applied or skipped leaves its identifier recorded, and every earlier one.
once_known :
    (b : CashBalance) (e : JournalEntry) (ids : List Text)
    → Recorded e.journal_entry_id ids (apply_journal_to_cash_balance_once b e ids)
unfolding apply_journal_to_cash_balance_once Included Recorded
once_known b e ids = elim (Bool-cases (mem e.journal_entry_id ids)) [
  | inl seen ↦ rw seen (seen, λ x m. m)
  | inr fresh ↦ rw fresh (projected (apply_journal_to_cash_balance account_cash b e))
]
  where
    projected :
        (m : Result PortfolioError CashProjection)
        → Recorded e.journal_entry_id ids (
            m >>= λ p. ok (record {
              balance = p.balance;
              cash_projection = some p;
              applied_journal_entry_ids = e.journal_entry_id ∷ ids;
              applied = true;
              duplicate_journal_entry = false;
            }))
    projected (ok p) =
        (mem_self e.journal_entry_id ids, λ x m. mem_other x e.journal_entry_id ids m)
    projected (raise x) = tt

Replayed : List Text → List JournalEntry → Result PortfolioError (CashBalance × List Text) → Type 0
Replayed ids es (ok (b', ids')) = AllKnown ids' es × Included ids ids'
Replayed ids es (raise x) = Unit

replayed :
    (b : CashBalance) (ids : List Text) (es : List JournalEntry)
    → Replayed ids es (apply_entries b ids es)
unfolding Replayed Included Recorded
replayed b ids [] = (tt, λ x m. m)
replayed b ids (e ∷ es) =
    finished (apply_journal_to_cash_balance_once b e ids) (once_known b e ids)
      (λ r. replayed r.balance r.applied_journal_entry_ids es)
  where
    merged :
        (ids1 : List Text) (m : Result PortfolioError (CashBalance × List Text))
        → (mem e.journal_entry_id ids1 ≡ true)
        → Included ids ids1
        → Replayed ids1 es m
        → Replayed ids (e ∷ es) m
    merged ids1 (ok (b', ids')) self earlier (known, later) =
        ((later e.journal_entry_id self, known), λ x m. later x (earlier x m))
    merged ids1 (raise x) self earlier u = tt

    finished :
        (m : Result PortfolioError CashApplication)
        → Recorded e.journal_entry_id ids m
        → ((r : CashApplication)
            → Replayed r.applied_journal_entry_ids es
                (apply_entries r.balance r.applied_journal_entry_ids es))
        → Replayed ids (e ∷ es) (m >>= λ r. apply_entries r.balance r.applied_journal_entry_ids es)
    finished (ok r) (self, earlier) rest =
        merged r.applied_journal_entry_ids (apply_entries r.balance r.applied_journal_entry_ids es)
          self earlier (rest r)
    finished (raise x) u rest = tt

-- A replay that returned changes nothing when it is run again with the identifiers it recorded,
-- whatever the entries are.
pub replay_again :
    (b : CashBalance) (ids : List Text) (es : List JournalEntry) (b' : CashBalance)
    (ids' : List Text)
    → apply_entries b ids es ≡ ok (b', ids')
    → apply_entries b' ids' es ≡ ok (b', ids')
unfolding Replayed
replay_again b ids es b' ids' h =
    apply_known b' ids' es (subst (λ m. Replayed ids es m) h (replayed b ids es)).0
