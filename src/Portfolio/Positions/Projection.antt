-- ===== src/Portfolio/Positions/Projection.antt =====
-- A fill on a valid position is always projected.
use pmrp.Common.{
  ◌+◌, ◌*◌, ℕ, ◌≤◌, ◌≡◌, refl, ap, subst, inl, inr, Bool, true, false, not, Option, none, some,
  arith, Bool-cases, if◌then◌else◌,
}
use pmrp.Common.Equality.{◌==◌}
use pmrp.Common.Fields.{is_bad_length, is_none, is_currency}
use pmrp.Common.Int.{ℤ, pos, negsuc, ◌+ℤ◌, eqb_ℤ, ltb_ℤ, +ℤ_parts}
use pmrp.Common.Text.{Text, text_eq, text_eqb_iff}
use pmrp.Common.Result.{Result, ok, raise, raise_if_inversion, bind_inversion}
use pmrp.Portfolio.Types.{PortfolioError, Money, Position, Fill}
use pmrp.Portfolio.Decimals.{Context}
use pmrp.Portfolio.Average.{carried, is_flat, sign, same_direction, WeightedAverage}
use pmrp.Portfolio.Average.Parts.{IsExact, sign_cases}
use pmrp.Portfolio.Average.Exact.{apply_weighted_average_fill_lem}
use pmrp.Portfolio.Journal.{expected_money}
use pmrp.Portfolio.Positions.{
  earlier, opened_after, make_position, zero_money, validate_money, fill_money,
  validate_position_identity, validate_position_average, validate_existing_position,
  validate_fill_order, project_opened_at, project_updated_at, Existing, existing_state,
  projected_position, projection_of, apply_fill_to_position,
}

-- A position that its constructor made.
abbrev pub IsMade : Option Position → Type 0
IsMade none = Unit
IsMade (some p) = make_position p ≡ ok p

-- A position that passes the guards has an average just when it is open.
guarded_average :
    (p : Position) (fill : Fill) (currency : Text) (id : Option Text)
    → validate_existing_position p fill currency id ≡ ok tt
    → is_flat p.quantity ≡ is_none p.average_entry_price
unfolding validate_existing_position validate_position_average
guarded_average p fill currency id h =
    let (_, h1) = bind_inversion (validate_position_identity p fill id) _ h in
    let (h2, _) = bind_inversion (validate_position_average p) _ h1 in ground (arith, h2)

pub nonnegative_fees :
    (p : Position)
    → make_position p ≡ ok p
    → (ltb_ℤ p.fees_paid.amount (pos 0) ≡ false) × (ltb_ℤ p.rebates_received.amount (pos 0) ≡ false)
unfolding make_position
nonnegative_fees p h =
    let h1 = raise_if_inversion (is_bad_length 64 p.exchange) _ _ h in
    let h2 = raise_if_inversion (opened_after p.opened_at p.last_updated_at) _ _ h1.1 in
    let h3 = raise_if_inversion (ltb_ℤ p.fees_paid.amount (pos 0)) _ _ h2.1 in
    let h4 = raise_if_inversion (ltb_ℤ p.rebates_received.amount (pos 0)) _ _ h3.1 in (h3.0, h4.0)

-- The amount of a result, and a default for an exception.
money_of : Money → Result PortfolioError Money → Money
money_of d (ok m) = m
money_of d (raise x) = d

pub fill_money-value :
    (m : Option Money) (currency : Text) (a : Money)
    → fill_money m currency ≡ ok a
    → (expected_money m currency ≡ a) × (ltb_ℤ a.amount (pos 0) ≡ false) × (a.currency ≡ currency)
unfolding fill_money validate_money money_of
fill_money-value none currency a h =
    let e : zero_money currency ≡ a = ap (money_of a) h in
    subst
      (λ (x : Money).
        (zero_money currency ≡ x) × (ltb_ℤ x.amount (pos 0) ≡ false) × (x.currency ≡ currency))
      e (refl, refl, refl)
fill_money-value (some m) currency a h =
    let h1 = raise_if_inversion (not (m.currency == currency)) _ _ h in
    let h2 = raise_if_inversion (ltb_ℤ m.amount (pos 0)) _ _ h1.1 in
    let e : m ≡ a = ap (money_of a) h2.1 in
    let same = (text_eqb_iff m.currency currency).0 (ground (arith, h1.0)) in
    subst (λ (x : Money). (m ≡ x) × (ltb_ℤ x.amount (pos 0) ≡ false) × (x.currency ≡ currency)) e
      (refl, h2.0, same)

updated_after :
    (last : Option ℕ) (fill : Fill) (t : ℕ)
    → t ≤ fill.exchange_occurred_at
    → opened_after (some t) (project_updated_at last fill) ≡ false
updated_after none fill t h = ground (arith, h)
updated_after (some u) fill t h = ground (arith, h)

earlier-le : (u t : ℕ) → earlier u t ≤ t
earlier-le u t = ground arith

-- The time at which the projected position was opened is never after its update.
project_opened_at_lem :
    (existing projected : ℤ) (opened last : Option ℕ) (fill : Fill)
    → (u : Option ℕ) × (project_opened_at existing projected opened fill ≡ ok u)
      × (opened_after u (project_updated_at last fill) ≡ false)
unfolding project_opened_at same_direction
project_opened_at_lem existing projected none last fill = elim (Bool-cases (is_flat projected)) [
  | inl flat ↦ (none, rw flat refl, refl)
  | inr h ↦ (
    some fill.exchange_occurred_at,
    rw h refl,
    updated_after last fill fill.exchange_occurred_at (omega arith),
  )
]
project_opened_at_lem existing projected (some u) last fill = elim (sign_cases projected) [
  | inl flat ↦ (none, rw flat refl, refl)
  | inr (inl (h, _, p)) ↦ opens (pos 1) h p
  | inr (inr (h, _, p)) ↦ opens (negsuc 0) h p
]
  where
    t : ℕ
    t = fill.exchange_occurred_at

    chosen : Bool → ℕ
    chosen same = if same then earlier u t else t

    chosen-le : (same : Bool) → chosen same ≤ t
    chosen-le true = earlier-le u t
    chosen-le false = omega arith

    opens :
        (r : ℤ)
        → is_flat projected ≡ false
        → sign projected ≡ ok r
        → (v : Option ℕ) × (project_opened_at existing projected (some u) fill ≡ ok v)
          × (opened_after v (project_updated_at last fill) ≡ false)
    opens r h p = elim (sign_cases existing) [
      | inl flat ↦ (some t, rw (h, flat) refl, updated_after last fill t (omega arith))
      | inr (inl (g, _, q)) ↦ (
        some (chosen (eqb_ℤ (pos 1) r)),
        rw (h, g, q, p) refl,
        updated_after last fill (chosen (eqb_ℤ (pos 1) r)) (chosen-le (eqb_ℤ (pos 1) r)),
      )
      | inr (inr (g, _, q)) ↦ (
        some (chosen (eqb_ℤ (negsuc 0) r)),
        rw (h, g, q, p) refl,
        updated_after last fill (chosen (eqb_ℤ (negsuc 0) r)) (chosen-le (eqb_ℤ (negsuc 0) r)),
      )
    ]

-- What the projection relies on in the state before the fill.
pub record IsState (e : Existing) : Type 0 where
  pub averaged : is_flat e.quantity ≡ is_none e.average_entry_price
  pub fees : ltb_ℤ e.fees_paid (pos 0) ≡ false
  pub rebates : ltb_ℤ e.rebates_received (pos 0) ≡ false

add_nonnegative :
    (a b : ℤ) → ltb_ℤ a (pos 0) ≡ false → ltb_ℤ b (pos 0) ≡ false → ltb_ℤ (a +ℤ b) (pos 0) ≡ false
add_nonnegative a b h k = ground (arith, +ℤ_parts a b)

module _ (c : Context) (digest : Text → Text → Text → Text → Text → Text) where
  state_of : Existing → Result PortfolioError Existing → Existing
  state_of d (ok e) = e
  state_of d (raise x) = d

  existing_state-IsState :
      (position : Option Position) (fill : Fill) (currency : Text) (id : Option Text) (e : Existing)
      → existing_state digest position fill currency id ≡ ok e
      → IsMade position
      → IsState e
  unfolding existing_state state_of
  existing_state-IsState none fill currency id e h made =
      subst (λ (x : Existing). IsState x) (ap (state_of e) h)
        (record { averaged = refl; fees = refl; rebates = refl })
  existing_state-IsState (some p) fill currency id e h made =
      let (h1, k) = bind_inversion (validate_existing_position p fill currency id) _ h in
      let (_, h2) = bind_inversion (validate_fill_order p.last_updated_at fill) _ k in
      let (fees, rebates) = nonnegative_fees p made in
      subst (λ (x : Existing). IsState x) (ap (state_of e) h2)
        (record {
          averaged = guarded_average p fill currency id h1;
          fees = fees;
          rebates = rebates;
        })

  -- A fill with valid money on a position that passes the guards is always projected: the position
  -- has the state before it with the exact average of the fill, and the fee and rebate added.
  pub apply_fill_to_position_lem :
      (position : Option Position) (fill : Fill) (currency : Text) (id : Option Text)
      → (fee rebate : Money) (e : Existing) → is_currency currency ≡ true
      → fill_money fill.fee currency ≡ ok fee
      → fill_money fill.rebate currency ≡ ok rebate
      → existing_state digest position fill currency id ≡ ok e
      → IsMade position
      → 1 ≤ fill.quantity
      → is_bad_length 64 fill.exchange ≡ false
      → carried e.quantity e.average_entry_price + fill.quantity * fill.price ≤ c.limit
      → (w : WeightedAverage) × (opened : Option ℕ) × (apply_fill_to_position c digest position fill
            currency id
          ≡ ok (
              projection_of c w
                (projected_position e w opened fill currency fee rebate)
                fill
                currency
                fee
                rebate))
        × IsExact e.quantity fill w
        × (w.closed_cost_basis ≤ carried e.quantity e.average_entry_price)
  unfolding apply_fill_to_position make_position
  apply_fill_to_position_lem position fill currency id fee rebate e k f r s made q x room =
      let state = existing_state-IsState position fill currency id e s made in
      let (w, averaged, exact, cost) =
        apply_weighted_average_fill_lem c e.quantity e.average_entry_price fill q state.averaged
          room in
      let (opened, projected, ordered) =
        project_opened_at_lem e.quantity w.quantity e.opened_at e.last_updated_at fill in
      let (_, fee_ok, _) = fill_money-value fill.fee currency fee f in
      let (_, rebate_ok, _) = fill_money-value fill.rebate currency rebate r in
      let fees = add_nonnegative e.fees_paid fee.amount state.fees fee_ok in
      let rebates = add_nonnegative e.rebates_received rebate.amount state.rebates rebate_ok in
      (w, opened, rw (k, f, r, s, averaged, projected, x, ordered, fees, rebates) refl, exact, cost)
