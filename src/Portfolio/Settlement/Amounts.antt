-- ===== src/Portfolio/Settlement/Amounts.antt =====
-- The amounts of a settlement, by whether the position's outcome is among the winners.
use pmrp.Common.{
  ℕ, ◌+◌, ◌*◌, ◌≤◌, ◌≡◌, refl, ◌⊎◌, inl, inr, true, false, List, [], ◌∷◌, arith, Bool-cases,
  if◌then◌else◌,
}
use pmrp.Common.Int.{ℤ, pos, ◌-ℤ◌, ◌*ℤ◌, abs_ℤ, int_laws}
use pmrp.Common.Text.{Text, text_eqb, text_eqb_iff}
use pmrp.Portfolio.Decimals.{
  Context, round_ℤ, round_ℤ-exact, abs_mul, difference-exact, product-exact,
}
use pmrp.Portfolio.Types.{Position, Settlement}
use pmrp.Portfolio.Balances.{mem}
use pmrp.Portfolio.Settlement.{settlement_amounts}

-- An identifier is one of a list.
abbrev pub IsAmong : Text → List Text → Type 0
IsAmong id [] = ⊥
IsAmong id (w ∷ ws) = (w ≡ id) ⊎ IsAmong id ws

-- What a unit of the position is worth: the payout when its outcome won, and nothing otherwise.
abbrev pub IsWorth : Position → Settlement → ℕ → ℕ → Type 0
IsWorth p s payout value =
    (IsAmong p.outcome_id s.winning_outcome_ids × (value ≡ payout))
    ⊎ (¬ IsAmong p.outcome_id s.winning_outcome_ids × (value ≡ 0))

among-mem : (id : Text) (ws : List Text) → IsAmong id ws → mem id ws ≡ true
among-mem id [] h = elim h [ ]
among-mem id (w ∷ ws) (inl e) = rw ((text_eqb_iff w id).1 e) refl
among-mem id (w ∷ ws) (inr h) = ground (arith, among-mem id ws h)

not_among-mem : (id : Text) (ws : List Text) → ¬ IsAmong id ws → mem id ws ≡ false
not_among-mem id [] n = refl
not_among-mem id (w ∷ ws) n = elim (Bool-cases (text_eqb w id)) [
  | inl e ↦ elim (n (inl ((text_eqb_iff w id).0 e))) [ ]
  | inr e ↦ rw e (not_among-mem id ws (λ h. n (inr h)))
]

abbrev pub worth : Position → Settlement → ℕ → ℕ
worth p s payout = if mem p.outcome_id s.winning_outcome_ids then payout else 0

pub worth-IsWorth :
    (p : Position) (s : Settlement) (payout value : ℕ)
    → IsWorth p s payout value
    → worth p s payout ≡ value
worth-IsWorth p s payout value (inl (h, e)) =
    rw (among-mem p.outcome_id s.winning_outcome_ids h, e) refl
worth-IsWorth p s payout value (inr (h, e)) =
    rw (not_among-mem p.outcome_id s.winning_outcome_ids h, e) refl

pub worth_bound :
    (q : ℕ) (p : Position) (s : Settlement) (payout : ℕ) → q * worth p s payout ≤ q * payout
worth_bound q p s payout = elim (Bool-cases (mem p.outcome_id s.winning_outcome_ids)) [
  | inl e ↦ rw e (omega arith)
  | inr e ↦ rw e (omega arith)
]

-- The amounts of a settlement are exact when the cost and the payout together fit the context.
pub settlement_amounts-exact :
    (c : Context) (p : Position) (s : Settlement) (k : Text) (average payout : ℕ)
    → abs_ℤ p.quantity * average + abs_ℤ p.quantity * payout ≤ c.limit
    → ((settlement_amounts c p s k average payout).cash_delta.amount
        ≡ p.quantity *ℤ pos (worth p s payout))
      × ((settlement_amounts c p s k average payout).position_cost_basis.amount
          ≡ p.quantity *ℤ pos average)
      × ((settlement_amounts c p s k average payout).settlement_pnl.amount
          ≡ p.quantity *ℤ pos (worth p s payout) -ℤ p.quantity *ℤ pos average)
settlement_amounts-exact c p s k average payout room =
    let q = abs_ℤ p.quantity in
    let bound = worth_bound q p s payout in
    let cash = product-exact c p.quantity (worth p s payout) (omega (arith, bound, room)) in
    let cost = product-exact c p.quantity average (omega (arith, room)) in
    let pnl =
      difference-exact c (p.quantity *ℤ pos (worth p s payout)) (p.quantity *ℤ pos average) (
        omega (
          arith,
          abs_mul p.quantity (worth p s payout),
          abs_mul p.quantity average,
          bound,
          room,
        )) in
    (cash, cost, rw (cash, cost) pnl)

-- The differences of a settlement's amounts and its correction's are exact when the cost and the
-- two payouts together fit.
pub differences-exact :
    (c : Context) (x y v : ℤ)
    → abs_ℤ x + abs_ℤ y ≤ c.limit
    → (round_ℤ c (y -ℤ x) ≡ y -ℤ x)
      × (round_ℤ c (v -ℤ v) ≡ pos 0)
      × (round_ℤ c (y -ℤ v -ℤ (x -ℤ v)) ≡ y -ℤ x)
differences-exact c x y v room =
    let cash = difference-exact c y x (omega (arith, room)) in
    let none_left : v -ℤ v ≡ pos 0 = omega int_laws in
    let same : y -ℤ v -ℤ (x -ℤ v) ≡ y -ℤ x = omega int_laws in
    (cash, rw none_left (round_ℤ-exact c (pos 0) (omega arith)), rw same cash)
