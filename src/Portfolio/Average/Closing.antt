-- ===== src/Portfolio/Average/Closing.antt =====
-- A fill that closes exactly what another one opened.
use pmrp.Common.{ℕ, ◌-◌, ◌*◌, min, ◌≤◌, ◌≡◌, refl, ◌∙◌, inl, inr, false, none, some, arith}
use pmrp.Common.Int.{ℤ, pos, ◌+ℤ◌, ◌-ℤ◌, ◌*ℤ◌, neg_ℤ, abs_ℤ, eqb_ℤ, pos_mul_sub}
use pmrp.Common.Result.{ok}
use pmrp.Portfolio.Types.{Fill}
use pmrp.Portfolio.Decimals.{Context}
use pmrp.Portfolio.Entry.Balanced.{zero_add}
use pmrp.Portfolio.Average.{
  is_flat, sign, same_direction, signed_fill_quantity, fill_direction, WeightedAverage, opening,
  closing, average_open, apply_weighted_average_fill,
}
use pmrp.Portfolio.Average.Parts.{abs_signed, direction_cases, one_fits, realized-exact}
use pmrp.Portfolio.Average.Exact.{sign_up, sign_down}
use pmrp.Portfolio.Journal.Balanced.{direction-unit}

sign-opposite :
    (fill : Fill)
    → 1 ≤ fill.quantity
    → sign (neg_ℤ (signed_fill_quantity fill)) ≡ ok (neg_ℤ (fill_direction fill))
unfolding sign neg_ℤ
sign-opposite fill q = elim (direction_cases fill q) [
  | inl (d, s) ↦ rw (d, s) (ground (arith, q))
  | inr (d, s) ↦ rw (d, s) (ground (arith, q))
]

flat_sum : (z : ℤ) → z +ℤ neg_ℤ z ≡ pos 0
unfolding ◌+ℤ◌ neg_ℤ
flat_sum z = ground arith

abs_neg : (z : ℤ) → abs_ℤ (neg_ℤ z) ≡ abs_ℤ z
unfolding neg_ℤ
abs_neg z = ground arith

signed-nonzero : (fill : Fill) → 1 ≤ fill.quantity → is_flat (signed_fill_quantity fill) ≡ false
signed-nonzero fill q = ground (arith, abs_signed fill, q)

sign-signed :
    (fill : Fill) → 1 ≤ fill.quantity → sign (signed_fill_quantity fill) ≡ ok (fill_direction fill)
sign-signed fill q = elim (direction_cases fill q) [
  | inl (d, s) ↦ rw (d, s) (sign_up fill.quantity q)
  | inr (d, s) ↦ rw (d, s) (sign_down (fill.quantity - 1))
]

direction-opposite :
    (fill : Fill) → eqb_ℤ (fill_direction fill) (neg_ℤ (fill_direction fill)) ≡ false
unfolding neg_ℤ
direction-opposite fill = elim (direction-unit fill) [ inl h ↦ rw h refl | inr h ↦ rw h refl ]

module _ (c : Context) where
  closes_flat :
      (z : ℤ) (a : ℕ) (fill : Fill) (l r : ℤ)
      → sign z ≡ ok l
      → sign (signed_fill_quantity fill) ≡ ok r
      → eqb_ℤ l r ≡ false
      → z +ℤ signed_fill_quantity fill ≡ pos 0
      → average_open c z a fill ≡ ok (closing c z (pos 0) a l none fill)
  unfolding average_open same_direction
  closes_flat z a fill l r g k other flat = rw (g, k, other, flat) refl

  -- A fill from flat and a fill of the same quantity against it leave a flat position without an
  -- average: the whole quantity is closed and nothing opened, and the realized amount is the
  -- quantity times the difference of the prices, in the direction of the first fill, when the two
  -- notionals fit the context.
  pub open_then_close :
      (first second : Fill)
      → 1 ≤ first.quantity
      → signed_fill_quantity second ≡ neg_ℤ (signed_fill_quantity first)
      → first.quantity * first.price ≤ c.limit
      → first.quantity * second.price ≤ c.limit
      → (w v : WeightedAverage) × (apply_weighted_average_fill c (pos 0) none first ≡ ok w)
        × (apply_weighted_average_fill c w.quantity w.average_entry_price second ≡ ok v)
        × (v.quantity ≡ pos 0)
        × (v.average_entry_price ≡ none)
        × (v.closed_quantity ≡ first.quantity)
        × (v.opened_quantity ≡ 0)
        × (v.realized_trading_pnl
            ≡ pos first.quantity *ℤ (pos second.price -ℤ pos first.price) *ℤ fill_direction first)
  unfolding apply_weighted_average_fill
  open_then_close first second q opposite fits_first fits_second =
      let z = signed_fill_quantity first in
      let d = fill_direction first in
      let g : sign z ≡ ok d = sign-signed first q in
      let k : sign (signed_fill_quantity second) ≡ ok (neg_ℤ d) =
        rw opposite (sign-opposite first q) in
      let flat : z +ℤ signed_fill_quantity second ≡ pos 0 = rw opposite (flat_sum z) in
      let abs_f : abs_ℤ (signed_fill_quantity second) ≡ first.quantity =
        rw opposite (abs_neg z) ∙ abs_signed first in
      let abs_z = abs_signed first in
      let realized =
        realized-exact c first.quantity first.price second.price
          (one_fits c first.quantity first.price q fits_first)
          (one_fits c first.quantity second.price q fits_second) fits_first fits_second in
      let ran = closes_flat z first.price second d (neg_ℤ d) g k (direction-opposite first) flat in
      let closed : min (abs_ℤ z) (abs_ℤ (signed_fill_quantity second)) ≡ first.quantity =
        omega arith in
      (
        opening c (pos 0 +ℤ z) (some first.price) first,
        closing c z (pos 0) first.price d none second,
        refl,
        rw (zero_add z, signed-nonzero first q) ran,
        refl,
        refl,
        closed,
        omega arith,
        rw (closed, realized, pos_mul_sub first.quantity second.price first.price) refl,
      )
