-- ===== src/Portfolio/Average/Parts.antt =====
-- The parts of a fill that its weighted average splits, and when their amounts are exact.
use pmrp.Common.{
  ℕ, ◌+◌, ◌-◌, ◌*◌, min, ◌≤◌, ◌≡◌, refl, sym, ◌⊎◌, inl, inr, true, false, Option, arith,
}
use pmrp.Common.Fields.{is_none}
use pmrp.Common.Int.{ℤ, pos, negsuc, ◌+ℤ◌, ◌-ℤ◌, ◌*ℤ◌, neg_ℤ, abs_ℤ, ltb_ℤ, pos_mul_sub}
use pmrp.Common.Result.{ok}
use pmrp.Simulation.MarketData.{Side, buy, sell}
use pmrp.Portfolio.Decimals.{Context, round_ℤ, round_difference, mul_mono}
use pmrp.Portfolio.Types.{Fill}
use pmrp.Portfolio.Average.{
  is_flat, sign, signed_fill_quantity, fill_direction, WeightedAverage, opening, closing,
}

-- The position moves by the signed quantity, which is split into what closes and what opens, each
-- at the fill's price; the realized amount is the closed value less its cost in the direction of
-- the position; and there is an average just when the position is open.
pub record IsExact (existing : ℤ) (fill : Fill) (w : WeightedAverage) : Type 0 where
  pub moves : w.quantity ≡ existing +ℤ signed_fill_quantity fill
  pub split : w.closed_quantity + w.opened_quantity ≡ fill.quantity
  pub closed_value : w.closed_trade_value ≡ w.closed_quantity * fill.price
  pub opened_value : w.opened_notional ≡ w.opened_quantity * fill.price
  pub realized :
      w.realized_trading_pnl
      ≡ (pos w.closed_trade_value -ℤ pos w.closed_cost_basis) *ℤ neg_ℤ (fill_direction fill)
  pub flat : is_flat w.quantity ≡ is_none w.average_entry_price

pub sign_cases :
    (z : ℤ)
    → (is_flat z ≡ true)
      ⊎ ((is_flat z ≡ false) × (ltb_ℤ (pos 0) z ≡ true) × (sign z ≡ ok (pos 1)))
      ⊎ ((is_flat z ≡ false) × (ltb_ℤ z (pos 0) ≡ true) × (sign z ≡ ok (negsuc 0)))
unfolding sign
sign_cases z = ground arith

pub abs_signed : (fill : Fill) → abs_ℤ (signed_fill_quantity fill) ≡ fill.quantity
unfolding neg_ℤ
abs_signed fill = go fill.side
  where
    go : (side : Side) → abs_ℤ (signed_fill_quantity (record fill { side = side })) ≡ fill.quantity
    go buy = ground arith
    go sell = ground arith

-- The direction of a fill, and the sign of its signed quantity.
pub direction_cases :
    (fill : Fill)
    → 1 ≤ fill.quantity
    → ((fill_direction fill ≡ pos 1) × (signed_fill_quantity fill ≡ pos fill.quantity))
      ⊎ ((fill_direction fill ≡ negsuc 0)
          × (signed_fill_quantity fill ≡ negsuc (fill.quantity - 1)))
unfolding neg_ℤ
direction_cases fill h = go fill.side
  where
    go :
        (side : Side)
        → ((fill_direction (record fill { side = side }) ≡ pos 1)
            × (signed_fill_quantity (record fill { side = side }) ≡ pos fill.quantity))
          ⊎ ((fill_direction (record fill { side = side }) ≡ negsuc 0)
              × (signed_fill_quantity (record fill { side = side }) ≡ negsuc (fill.quantity - 1)))
    go buy = inl (refl, refl)
    go sell = inr (refl, ground (arith, h))

zero_mul_neg_direction : (fill : Fill) → (pos 0 -ℤ pos 0) *ℤ neg_ℤ (fill_direction fill) ≡ pos 0
unfolding neg_ℤ ◌*ℤ◌ ◌-ℤ◌
zero_mul_neg_direction fill = go fill.side
  where
    go :
        (side : Side)
        → (pos 0 -ℤ pos 0) *ℤ neg_ℤ (fill_direction (record fill { side = side })) ≡ pos 0
    go buy = refl
    go sell = refl

pub opening-IsExact :
    (c : Context) (existing : ℤ) (average : Option ℕ) (fill : Fill)
    → fill.quantity * fill.price ≤ c.limit
    → is_flat (existing +ℤ signed_fill_quantity fill) ≡ is_none average
    → IsExact existing fill (opening c (existing +ℤ signed_fill_quantity fill) average fill)
opening-IsExact c existing average fill fits h = record {
  moves = refl;
  split = omega (arith, abs_signed fill);
  closed_value = omega arith;
  opened_value =
      c.exact (abs_ℤ (signed_fill_quantity fill) * fill.price) (rw (abs_signed fill) fits);
  realized = sym (zero_mul_neg_direction fill);
  flat = h;
}

-- What a fill against an open position needs to fit the context.
pub record Fits (c : Context) (existing : ℤ) (a : ℕ) (fill : Fill) : Type 0 where
  pub traded : fill.quantity * fill.price ≤ c.limit
  pub held : abs_ℤ existing * a ≤ c.limit
  pub positive : 1 ≤ fill.quantity
  pub not_flat : is_flat existing ≡ false

-- A part of a quantity at a price fits when the whole does.
part_fits :
    (c : Context) (part whole price : ℕ)
    → part ≤ whole
    → whole * price ≤ c.limit
    → part * price ≤ c.limit
part_fits c part whole price h fits = omega (arith, mul_mono part whole price h, fits)

pub one_fits :
    (c : Context) (whole price : ℕ) → 1 ≤ whole → whole * price ≤ c.limit → price ≤ c.limit
one_fits c whole price h fits = omega (arith, part_fits c 1 whole price h fits)

-- The realized amount and the cost of a closed quantity are exact.
pub realized-exact :
    (c : Context) (n a p : ℕ)
    → a ≤ c.limit
    → p ≤ c.limit
    → n * a ≤ c.limit
    → n * p ≤ c.limit
    → round_ℤ c (pos n *ℤ round_ℤ c (pos p -ℤ pos a)) ≡ pos (n * p) -ℤ pos (n * a)
realized-exact c n a p ha hp ka kp =
    rw (round_difference c p a hp ha, pos_mul_sub n p a) (round_difference c (n * p) (n * a) kp ka)

pub closing-IsExact :
    (c : Context) (existing : ℤ) (a : ℕ) (d : ℤ) (average : Option ℕ) (fill : Fill)
    → Fits c existing a fill
    → d ≡ neg_ℤ (fill_direction fill)
    → is_flat (existing +ℤ signed_fill_quantity fill) ≡ is_none average
    → IsExact existing fill
        (closing c existing (existing +ℤ signed_fill_quantity fill) a d average fill)
closing-IsExact c existing a d average fill fits e h =
    let f = abs_ℤ (signed_fill_quantity fill) in
    let q = abs_ℤ existing in
    let n = min q f in
    let nonzero : 1 ≤ q = ground (arith, fits.not_flat) in
    let whole = abs_signed fill in
    let ka = part_fits c n q a (omega arith) fits.held in
    let kp = part_fits c n fill.quantity fill.price (omega (arith, whole)) fits.traded in
    let ko = part_fits c (f - q) fill.quantity fill.price (omega (arith, whole)) fits.traded in
    let ha = one_fits c q a nonzero fits.held in
    let hp = one_fits c fill.quantity fill.price fits.positive fits.traded in
    let cost = c.exact (n * a) ka in
    let value = c.exact (n * fill.price) kp in
    record {
      moves = refl;
      split = omega (arith, abs_signed fill);
      closed_value = value;
      opened_value = c.exact ((f - q) * fill.price) ko;
      realized = rw (e, cost, value, realized-exact c n a fill.price ha hp ka kp) refl;
      flat = h;
    }

-- The cost of what closes is at most the position's.
pub closing-cost :
    (c : Context) (existing projected : ℤ) (a : ℕ) (d : ℤ) (average : Option ℕ) (fill : Fill)
    → Fits c existing a fill
    → (closing c existing projected a d average fill).closed_cost_basis ≤ abs_ℤ existing * a
closing-cost c existing projected a d average fill fits =
    let q = abs_ℤ existing in
    let n = min q (abs_ℤ (signed_fill_quantity fill)) in
    let le = mul_mono n q a (omega arith) in rw (c.exact (n * a) (omega (arith, le, fits.held))) le
