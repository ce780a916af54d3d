-- ===== src/Portfolio/Journal/Balanced.antt =====
-- The lines of a fill's journal entry: what each part of them carries, and that they sum to zero.
use pmrp.Common.{
  ℕ, ◌+◌, ◌*◌, ◌≡◌, refl, sym, ap, ◌∙◌, ◌⊎◌, inl, inr, false, List, [], ◌∷◌, ◌++◌, arith,
  Bool-cases,
}
use pmrp.Common.Int.{
  ℤ, pos, negsuc, ◌+ℤ◌, ◌-ℤ◌, ◌*ℤ◌, neg_ℤ, pos_part, ltb_ℤ, eq_of_parts, parts_of_eq, neg_ℤ_parts,
  int_laws,
}
use pmrp.Common.Text.{text_eq}
use pmrp.Simulation.MarketData.{Side, buy, sell}
use pmrp.Portfolio.Types.{JournalLine, Fill}
use pmrp.Portfolio.Balances.{sum_amounts}
use pmrp.Portfolio.Average.{fill_direction}
use pmrp.Portfolio.Positions.{PositionProjection}
use pmrp.Portfolio.Journal.Matching.{IsMatching}
use pmrp.Portfolio.Journal.{closed_lines, opened_lines, fee_lines, rebate_lines, fill_lines}

nonnegative_pos : (z : ℤ) → ltb_ℤ z (pos 0) ≡ false → z ≡ pos (pos_part z)
nonnegative_pos (pos n) h = refl
nonnegative_pos (negsuc n) h = ground (arith, h)

pub not_positive : (z : ℤ) → ltb_ℤ z (pos 0) ≡ false → ltb_ℤ (pos 0) z ≡ false → z ≡ pos 0
not_positive z h k = eq_of_parts z (pos 0) (ground (arith, h, k))

mul_one : (z : ℤ) → z *ℤ pos 1 ≡ z
unfolding ◌*ℤ◌
mul_one (pos n) = ground arith
mul_one (negsuc n) = ground arith

mul_neg_one : (z : ℤ) → z *ℤ negsuc 0 ≡ neg_ℤ z
unfolding ◌*ℤ◌ neg_ℤ
mul_neg_one (pos n) = ground arith
mul_neg_one (negsuc n) = ground arith

one_mul : (z : ℤ) → pos 1 *ℤ z ≡ z
unfolding ◌*ℤ◌
one_mul (pos n) = ground arith
one_mul (negsuc n) = ground arith

neg_one_mul : (z : ℤ) → negsuc 0 *ℤ z ≡ neg_ℤ z
unfolding ◌*ℤ◌ neg_ℤ
neg_one_mul (pos n) = ground arith
neg_one_mul (negsuc n) = ground arith

pos_mul_pos : (a b : ℕ) → pos a *ℤ pos b ≡ pos (a * b)
unfolding ◌*ℤ◌
pos_mul_pos a b = refl

distributes : (a b p : ℕ) → pos (a * p) +ℤ pos (b * p) ≡ pos ((a + b) * p)
unfolding ◌+ℤ◌
distributes a b p = ground arith

-- The notional is the closed and the opened value together.
notional_split :
    (fill : Fill) (r : PositionProjection)
    → IsMatching fill r
    → r.trade_notional.amount ≡ r.closed_trade_value.amount +ℤ r.opened_notional.amount
notional_split fill r m =
    let a = pos_part r.closed_quantity in
    let b = pos_part r.opened_quantity in
    let ea = nonnegative_pos r.closed_quantity m.closed_nonnegative in
    let eb = nonnegative_pos r.opened_quantity m.opened_nonnegative in
    let total : a + b ≡ fill.quantity =
      omega (int_laws, parts_of_eq m.split, parts_of_eq ea, parts_of_eq eb) in
    let closed : r.closed_trade_value.amount ≡ pos (a * fill.price) =
      m.closed_value ∙ ap (λ (z : ℤ). z *ℤ pos fill.price) ea ∙ pos_mul_pos a fill.price in
    let opens : r.opened_notional.amount ≡ pos (b * fill.price) =
      m.opened_value ∙ ap (λ (z : ℤ). z *ℤ pos fill.price) eb ∙ pos_mul_pos b fill.price in
    rw (closed, opens, m.notional)
      (ap (λ (q : ℕ). pos (q * fill.price)) (sym total) ∙ sym (distributes a b fill.price))

pub direction-unit :
    (fill : Fill) → (fill_direction fill ≡ pos 1) ⊎ (fill_direction fill ≡ negsuc 0)
direction-unit fill = go fill.side
  where
    go :
        (side : Side)
        → (fill_direction (record fill { side = side }) ≡ pos 1)
          ⊎ (fill_direction (record fill { side = side }) ≡ negsuc 0)
    go buy = inl refl
    go sell = inr refl

neg_one : neg_ℤ (pos 1) ≡ negsuc 0
unfolding neg_ℤ
neg_one = refl

neg_neg_one : neg_ℤ (negsuc 0) ≡ pos 1
unfolding neg_ℤ
neg_neg_one = refl

-- Products with a direction, which keep or change the sign.
abbrev Keeps : ℤ → ℤ → Type 0
Keeps d z = (d *ℤ z ≡ z) × (neg_ℤ d *ℤ z ≡ neg_ℤ z) × (z *ℤ neg_ℤ d ≡ neg_ℤ z)

abbrev Turns : ℤ → ℤ → Type 0
Turns d z = (d *ℤ z ≡ neg_ℤ z) × (neg_ℤ d *ℤ z ≡ z) × (z *ℤ neg_ℤ d ≡ z)

direction_laws :
    (fill : Fill)
    → ((z : ℤ) → Keeps (fill_direction fill) z) ⊎ ((z : ℤ) → Turns (fill_direction fill) z)
direction_laws fill = elim (direction-unit fill) [
  | inl h ↦ inl (λ z. rw (h, neg_one) (one_mul z, neg_one_mul z, mul_neg_one z))
  | inr h ↦ inr (λ z. rw (h, neg_neg_one) (neg_one_mul z, one_mul z, mul_one z))
]

sum-append : (xs ys : List JournalLine) → sum_amounts (xs ++ ys) ≡ sum_amounts xs +ℤ sum_amounts ys
sum-append [] ys = omega int_laws
sum-append (l ∷ ls) ys = omega (int_laws, parts_of_eq (sum-append ls ys))

-- The cost of what closes and its realized gain together are its value, in the fill's direction.
closes_out :
    (fill : Fill) (v c : ℤ)
    → neg_ℤ (neg_ℤ (fill_direction fill) *ℤ c) +ℤ neg_ℤ ((v -ℤ c) *ℤ neg_ℤ (fill_direction fill))
      ≡ fill_direction fill *ℤ v
closes_out fill v c = elim (direction_laws fill) [
  | inl f ↦ rw ((f c).1, (f (v -ℤ c)).2, (f v).0) (omega (int_laws, neg_ℤ_parts))
  | inr f ↦ rw ((f c).1, (f (v -ℤ c)).2, (f v).0) (omega (int_laws, neg_ℤ_parts))
]

-- A trade's cash, its closed and its opened value cancel.
trade_cancels :
    (fill : Fill) (n v o : ℤ)
    → n ≡ v +ℤ o
    → neg_ℤ (fill_direction fill) *ℤ n +ℤ (fill_direction fill *ℤ v +ℤ fill_direction fill *ℤ o)
      ≡ pos 0
trade_cancels fill n v o h = elim (direction_laws fill) [
  | inl f ↦ rw ((f n).1, (f v).0, (f o).0) (omega (int_laws, neg_ℤ_parts, parts_of_eq h))
  | inr f ↦ rw ((f n).1, (f v).0, (f o).0) (omega (int_laws, neg_ℤ_parts, parts_of_eq h))
]

direction_zero : (fill : Fill) (z : ℤ) → z ≡ pos 0 → fill_direction fill *ℤ z ≡ pos 0
direction_zero fill z h = elim (direction_laws fill) [
  | inl f ↦ rw (f z).0 h
  | inr f ↦ rw (f z).0 (omega (int_laws, neg_ℤ_parts, parts_of_eq h))
]

four_parts :
    (cs os fs rs : List JournalLine) (h v o : ℤ)
    → sum_amounts cs ≡ v
    → sum_amounts os ≡ o
    → sum_amounts fs ≡ pos 0
    → sum_amounts rs ≡ pos 0
    → h +ℤ (v +ℤ o) ≡ pos 0
    → h +ℤ sum_amounts (cs ++ os ++ fs ++ rs) ≡ pos 0
four_parts cs os fs rs h v o ec eo ef er t =
    rw (sum-append (cs ++ os ++ fs) rs, sum-append (cs ++ os) fs, sum-append cs os, ec, eo, ef, er)
      (omega (int_laws, parts_of_eq t))

nothing_at_zero : (q : ℤ) (p : ℕ) → q ≡ pos 0 → q *ℤ pos p ≡ pos 0
nothing_at_zero q p h = rw h (pos_mul_pos 0 p ∙ ap pos (omega arith))

module _ (fill : Fill) (r : PositionProjection) (m : IsMatching fill r) where
  -- The closing lines carry the closed value in the direction of the fill.
  closed_lines-sum :
      sum_amounts (closed_lines (fill_direction fill) r)
      ≡ fill_direction fill *ℤ r.closed_trade_value.amount
  closed_lines-sum = elim (Bool-cases (ltb_ℤ (pos 0) r.closed_quantity)) [
    | inl p ↦
        let out = closes_out fill r.closed_trade_value.amount r.closed_cost_basis.amount in
        rw (p, m.realized) (omega (int_laws, parts_of_eq out))
    | inr p ↦
        let none_closed = not_positive r.closed_quantity m.closed_nonnegative p in
        let value = m.closed_value ∙ nothing_at_zero r.closed_quantity fill.price none_closed in
        rw p (sym (direction_zero fill r.closed_trade_value.amount value))
  ]

  -- The opening line carries the opened value.
  opened_lines-sum :
      sum_amounts (opened_lines (fill_direction fill) r)
      ≡ fill_direction fill *ℤ r.opened_notional.amount
  opened_lines-sum = elim (Bool-cases (ltb_ℤ (pos 0) r.opened_quantity)) [
    | inl p ↦ rw p (omega int_laws)
    | inr p ↦
        let none_opened = not_positive r.opened_quantity m.opened_nonnegative p in
        let value = m.opened_value ∙ nothing_at_zero r.opened_quantity fill.price none_opened in
        rw p (sym (direction_zero fill r.opened_notional.amount value))
  ]

  fee_lines-sum : sum_amounts (fee_lines r) ≡ pos 0
  fee_lines-sum = elim (Bool-cases (ltb_ℤ (pos 0) r.fee.amount)) [
    | inl p ↦ rw p (omega (int_laws, neg_ℤ_parts r.fee.amount))
    | inr p ↦ rw p refl
  ]

  rebate_lines-sum : sum_amounts (rebate_lines r) ≡ pos 0
  rebate_lines-sum = elim (Bool-cases (ltb_ℤ (pos 0) r.rebate.amount)) [
    | inl p ↦ rw p (omega (int_laws, neg_ℤ_parts r.rebate.amount))
    | inr p ↦ rw p refl
  ]

  -- The lines of a fill's entry sum to zero.
  pub fill_lines-sum : sum_amounts (fill_lines (fill_direction fill) r) ≡ pos 0
  fill_lines-sum =
      let d = fill_direction fill in
      let trade =
        trade_cancels fill r.trade_notional.amount r.closed_trade_value.amount
          r.opened_notional.amount (notional_split fill r m) in
      four_parts (closed_lines d r) (opened_lines d r) (fee_lines r) (rebate_lines r)
        (neg_ℤ d *ℤ r.trade_notional.amount) (d *ℤ r.closed_trade_value.amount)
        (d *ℤ r.opened_notional.amount) closed_lines-sum opened_lines-sum fee_lines-sum
        rebate_lines-sum trade
