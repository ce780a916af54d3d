-- ===== src/Portfolio/Average/Exact.antt =====
-- What the weighted average keeps of a fill.
use pmrp.Common.{
  ℕ, ◌+◌, ◌-◌, ◌*◌, ◌≤◌, ◌≡◌, refl, inl, inr, true, false, Option, none, some, arith, if◌then◌else◌,
}
use pmrp.Common.Fields.{is_none}
use pmrp.Common.Int.{ℤ, pos, negsuc, ◌+ℤ◌, neg_ℤ, abs_ℤ, eqb_ℤ, +ℤ_parts}
use pmrp.Common.Result.{ok}
use pmrp.Portfolio.Decimals.{Context}
use pmrp.Portfolio.Types.{Fill}
use pmrp.Portfolio.Average.{
  is_flat, carried, sign, same_direction, signed_fill_quantity, fill_direction, WeightedAverage,
  opening, closing, average_open, apply_weighted_average_fill,
}
use pmrp.Portfolio.Average.Parts.{
  IsExact, sign_cases, direction_cases, opening-IsExact, Fits, closing-IsExact, closing-cost,
}

pub sign_up : (n : ℕ) → 1 ≤ n → sign (pos n) ≡ ok (pos 1)
unfolding sign
sign_up n h = ground (arith, h)

pub sign_down : (n : ℕ) → sign (negsuc n) ≡ ok (negsuc 0)
unfolding sign
sign_down n = ground arith

module _ (c : Context) where
  AveragesExactly : ℤ → ℕ → Fill → Type 0
  AveragesExactly existing a fill =
      (w : WeightedAverage) × (average_open c existing a fill ≡ ok w)
      × IsExact existing fill w
      × (w.closed_cost_basis ≤ abs_ℤ existing * a)

  same_side :
      (existing : ℤ) (a : ℕ) (fill : Fill) (l r : ℤ)
      → Fits c existing a fill
      → sign existing ≡ ok l
      → sign (signed_fill_quantity fill) ≡ ok r
      → eqb_ℤ l r ≡ true
      → is_flat (existing +ℤ signed_fill_quantity fill) ≡ false
      → AveragesExactly existing a fill
  unfolding average_open same_direction AveragesExactly
  same_side existing a fill l r fits g k same h =
      let projected = existing +ℤ signed_fill_quantity fill in
      let total =
        c.round (
          c.round (abs_ℤ existing * a)
          + c.round (abs_ℤ (signed_fill_quantity fill) * fill.price)) in
      let average = some (c.divide total (abs_ℤ projected)) in
      (
        opening c projected average fill,
        rw (g, k, same) refl,
        opening-IsExact c existing average fill fits.traded h,
        omega arith,
      )

  other_side :
      (existing : ℤ) (a : ℕ) (fill : Fill) (l r : ℤ)
      → Fits c existing a fill
      → sign existing ≡ ok l
      → sign (signed_fill_quantity fill) ≡ ok r
      → eqb_ℤ l r ≡ false
      → l ≡ neg_ℤ (fill_direction fill)
      → AveragesExactly existing a fill
  unfolding average_open same_direction AveragesExactly
  other_side existing a fill l r fits g k other d =
      let projected = existing +ℤ signed_fill_quantity fill in
      let turned = (λ (z : ℤ). some (if eqb_ℤ l z then a else fill.price)) in
      elim (sign_cases projected) [
        | inl flat ↦ (
          closing c existing projected a l none fill,
          rw (g, k, other, flat) refl,
          closing-IsExact c existing a l none fill fits d flat,
          closing-cost c existing projected a l none fill fits,
        )
        | inr (inl (h, _, m)) ↦ (
          closing c existing projected a l (turned (pos 1)) fill,
          rw (g, k, other, h, m) refl,
          closing-IsExact c existing a l (turned (pos 1)) fill fits d h,
          closing-cost c existing projected a l (turned (pos 1)) fill fits,
        )
        | inr (inr (h, _, m)) ↦ (
          closing c existing projected a l (turned (negsuc 0)) fill,
          rw (g, k, other, h, m) refl,
          closing-IsExact c existing a l (turned (negsuc 0)) fill fits d h,
          closing-cost c existing projected a l (turned (negsuc 0)) fill fits,
        )
      ]

  average_open_lem :
      (existing : ℤ) (a : ℕ) (fill : Fill)
      → Fits c existing a fill
      → AveragesExactly existing a fill
  unfolding neg_ℤ
  average_open_lem existing a fill fits = elim (direction_cases fill fits.positive) [
    | inl (d, s) ↦
        let up : sign (signed_fill_quantity fill) ≡ ok (pos 1) =
          rw s (sign_up fill.quantity fits.positive) in
        elim (sign_cases existing) [
          | inl e ↦ ground (arith, e, fits.not_flat)
          | inr (inl (e, p, g)) ↦
              same_side existing a fill (pos 1) (pos 1) fits g up refl
                (rw s (ground (arith, +ℤ_parts existing (pos fill.quantity))))
          | inr (inr (e, p, g)) ↦
              other_side existing a fill (negsuc 0) (pos 1) fits g up refl (rw d refl)
        ]
    | inr (d, s) ↦
        let down : sign (signed_fill_quantity fill) ≡ ok (negsuc 0) =
          rw s (sign_down (fill.quantity - 1)) in
        elim (sign_cases existing) [
          | inl e ↦ ground (arith, e, fits.not_flat)
          | inr (inl (e, p, g)) ↦
              other_side existing a fill (pos 1) (negsuc 0) fits g down refl (rw d refl)
          | inr (inr (e, p, g)) ↦
              same_side existing a fill (negsuc 0) (negsuc 0) fits g down refl
                (rw s (ground (arith, +ℤ_parts existing (negsuc (fill.quantity - 1)))))
        ]
  ]

  pub apply_weighted_average_fill_lem :
      (existing : ℤ) (average : Option ℕ) (fill : Fill)
      → 1 ≤ fill.quantity
      → is_flat existing ≡ is_none average
      → carried existing average + fill.quantity * fill.price ≤ c.limit
      → (w : WeightedAverage) × (apply_weighted_average_fill c existing average fill ≡ ok w)
        × IsExact existing fill w
        × (w.closed_cost_basis ≤ carried existing average)
  unfolding apply_weighted_average_fill AveragesExactly
  apply_weighted_average_fill_lem existing none fill q h room = (
    opening c (existing +ℤ signed_fill_quantity fill) (some fill.price) fill,
    rw h refl,
    opening-IsExact c existing (some fill.price) fill (omega (arith, room))
        (elim (direction_cases fill q) [
          | inl (_, s) ↦ rw s (ground (arith, h, +ℤ_parts existing (pos fill.quantity)))
          | inr (_, s) ↦ rw s (ground (arith, h, +ℤ_parts existing (negsuc (fill.quantity - 1))))
        ]),
    omega arith,
  )
  apply_weighted_average_fill_lem existing (some a) fill q h room =
      let fits : Fits c existing a fill = record {
        traded = omega (arith, room);
        held = omega (arith, room);
        positive = q;
        not_flat = h;
      } in
      let (w, ran, exact, cost) = average_open_lem existing a fill fits in
      (w, rw h ran, exact, cost)
