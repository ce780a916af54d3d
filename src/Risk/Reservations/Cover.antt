-- ===== src/Risk/Reservations/Cover.antt =====
-- Reservations cover the orders that their decisions authorize.
use pmrp.Common.{
  ℕ, ◌*◌, ◌≤◌, ◌<◌, ◌≡◌, refl, sym, ap, ◌∙◌, not, ◌&&◌, Option, none, some, arith, leb, nat_eqb,
}
use pmrp.Common.Fields.{is_currency}
use pmrp.Common.Text.{Text}
use pmrp.Common.Result.{ok, raise_if_inversion, bind_inversion, bind_value}
use pmrp.Risk.Types.{OrderIntent, RiskDecision, is_none}
use pmrp.Risk.Approvals.{References, ApprovedOrder, approved_values, build_approved_order}
use pmrp.Risk.Approvals.Authority.{
  IsAuthorized, validate_approval_pair_inversion, build_approved_order_lem,
}
use pmrp.Risk.Reservations.{
  ExchangeName, CapitalReservation, active, validate_reservation_id, validate_reservation_pair,
  is_active, released_before, make_reservation, required_expiry, reservation_of,
  build_capital_reservation,
}

required_expiry_inversion : (o : Option ℕ) (t : ℕ) → required_expiry o ≡ ok t → o ≡ some t
required_expiry_inversion none t h = ground arith
required_expiry_inversion (some a) t h = ground arith

make_reservation_inversion :
    (r r' : CapitalReservation)
    → make_reservation r ≡ ok r'
    → (r' ≡ r) × (1 ≤ r.notional) × (r.created_at < r.expires_at)
unfolding make_reservation
make_reservation_inversion r r' h =
    let a = bind_inversion (validate_reservation_id r.reservation_id) _ h in
    let b = raise_if_inversion (nat_eqb r.quantity 0) _ _ a.1 in
    let c = raise_if_inversion (nat_eqb r.notional 0) _ _ b.1 in
    let d = raise_if_inversion (leb r.expires_at r.created_at) _ _ c.1 in
    let e = raise_if_inversion (is_active r.status && not (is_none r.released_at)) _ _ d.1 in
    let f = raise_if_inversion (not (is_active r.status) && is_none r.released_at) _ _ e.1 in
    let g = raise_if_inversion (released_before r.released_at r.created_at) _ _ f.1 in
    let z = raise_if_inversion (not (is_currency r.currency)) _ _ g.1 in
    (ground (arith, z.1), ground (arith, c.0), ground (arith, d.0))

-- A reservation is built only from an approval of the same intent: it is active, holds the
-- approved quantity, and its quantity times its price, which is positive, until the approval's
-- end, which is still ahead.
pub build_capital_reservation_lem :
    (generate : OrderIntent → RiskDecision → ExchangeName → Text → Text → Text) (i : OrderIntent)
    (d : RiskDecision) (exchange : ExchangeName) (account currency : Text) (r : CapitalReservation)
    → build_capital_reservation generate i d exchange account currency ≡ ok r
    → (p : ℕ) × IsAuthorized i d r.quantity p
      × (r.notional ≡ r.quantity * p)
      × (1 ≤ r.notional)
      × (r.status ≡ active)
      × (d.approval_expires_at ≡ some r.expires_at)
      × (r.created_at < r.expires_at)
      × (r.intent_id ≡ i.intent_id)
      × (r.market_id ≡ i.market_id)
unfolding build_capital_reservation
build_capital_reservation_lem generate i d exchange account currency r h =
    let a = bind_inversion (validate_reservation_pair i d) _ h in
    let b = raise_if_inversion (not (is_currency currency)) _ _ a.1 in
    let (v, given, rest) =
      bind_value (approved_values d.approved_quantity d.approved_limit_price) _ b.1 in
    let (t, ends, last) = bind_value (required_expiry d.approval_expires_at) _ rest in
    let id = generate i d exchange account currency in
    let c = bind_inversion (validate_reservation_id id) _ last in
    let (e, positive, ahead) =
      make_reservation_inversion (reservation_of i d exchange account currency v t id) r c.1 in
    rw e (
      v.1,
      validate_approval_pair_inversion i d v a.0 given,
      refl,
      positive,
      refl,
      required_expiry_inversion d.approval_expires_at t ends,
      ahead,
      refl,
      refl,
    )

some_inversion : (o : Option ℕ) (a b : ℕ) → o ≡ some a → o ≡ some b → a ≡ b
some_inversion none a b h k = ground arith
some_inversion (some c) a b h k = ground arith

-- An order and a reservation from one decision agree: the reservation holds the order's quantity,
-- its quantity times its limit price, and the order's expiry, for the same intent and market.
pub reservation_covers_order :
    (references : OrderIntent → RiskDecision → Text → Text → References)
    (generate : OrderIntent → RiskDecision → ExchangeName → Text → Text → Text) (i : OrderIntent)
    (d : RiskDecision) (venue : Text) (exchange : ExchangeName) (account currency : Text)
    (o : ApprovedOrder) (r : CapitalReservation)
    → build_approved_order references i d venue account ≡ ok o
    → build_capital_reservation generate i d exchange account currency ≡ ok r
    → (p : ℕ) × (o.limit_price ≡ some p)
      × (r.quantity ≡ o.quantity)
      × (r.notional ≡ o.quantity * p)
      × (o.approval_expires_at ≡ some r.expires_at)
      × (r.intent_id ≡ o.intent_id)
      × (r.market_id ≡ o.market_id)
reservation_covers_order references generate i d venue exchange account currency o r x y =
    let (p, a, price, _, intent, _, market, _, _, _, ends) =
      build_approved_order_lem references i d venue account o x in
    let (p', a', notional, _, _, ends', _, intent', market') =
      build_capital_reservation_lem generate i d exchange account currency r y in
    let q =
      some_inversion d.approved_quantity r.quantity o.quantity a'.quantity_given a.quantity_given in
    let same = some_inversion d.approved_limit_price p' p a'.price_given a.price_given in
    (
      p,
      price,
      q,
      notional ∙ ap (λ (n : ℕ). n * p') q ∙ ap (λ (n : ℕ). o.quantity * n) same,
      ends ∙ ends',
      intent' ∙ sym intent,
      market' ∙ sym market,
    )
