-- ===== src/Risk/Approvals/Authority.antt =====
-- What authorizes an approved order, and the decisions that are enough for one.
use pmrp.Common.{
  ℕ, ◌≤◌, ◌≡◌, refl, sym, ap, subst, ◌∙◌, inl, inr, Bool, true, false, not, ◌&&◌, ◌||◌, Option,
  none, some, arith, ltb, Bool-cases, nat_eqb,
}
use pmrp.Common.Equality.{◌==◌}
use pmrp.Common.Text.{Text, text_eq, text_eqb_iff}
use pmrp.Common.Result.{Result, ok, raise_if, raise_if_inversion, bind_inversion, bind_value}
use pmrp.Risk.Types.{
  RiskError, quantity_exceeded, OrderIntent, RiskDecision, RiskDecisionStatus, is_bad_length,
  is_none, expires_by,
}
use pmrp.Risk.Engine.{RiskContext, RiskEngine, is_approved, if_approved, expiry, evaluate}
use pmrp.Risk.Engine.Decision.{IsReadyCall, is_approved_inversion, expires_by-expiry, evaluate_lem}
use pmrp.Risk.Approvals.{
  References, ApprovedOrder, validate_reference, make_references, make_approved_order,
  validate_order_pricing, validate_approval_pair, validate_exchange, approved_values, exceeds,
  order_of, build_approved_order, is_limit,
}

-- What `validate_approval_pair` checks.
pub record IsAuthorized (i : OrderIntent) (d : RiskDecision) (q p : ℕ) : Type 0 where
  pub is_approval : is_approved d.status ≡ true
  pub same_intent : d.intent_id ≡ i.intent_id
  pub same_correlation : d.correlation_id ≡ i.correlation_id
  pub quantity_given : d.approved_quantity ≡ some q
  pub price_given : d.approved_limit_price ≡ some p
  pub within : q ≤ i.quantity

values_given :
    (q p : Option ℕ) (v : ℕ × ℕ) → approved_values q p ≡ ok v → (q ≡ some v.0) × (p ≡ some v.1)
values_given none p v h = ground arith
values_given (some a) none v h = ground arith
values_given (some a) (some b) v h = ground arith

within_intent :
    (o : Option ℕ) (q n : ℕ) → o ≡ some q → raise_if (exceeds o n) quantity_exceeded ≡ ok tt → q ≤ n
within_intent none q n e h = ground arith
within_intent (some a) q n e h = ground arith

pub values_ok :
    (o r : Option ℕ) (q p : ℕ) → o ≡ some q → r ≡ some p → approved_values o r ≡ ok (q, p)
values_ok o r q p e f = rw (e, f) refl

pub validate_approval_pair_inversion :
    (i : OrderIntent) (d : RiskDecision) (v : ℕ × ℕ)
    → validate_approval_pair i d ≡ ok tt
    → approved_values d.approved_quantity d.approved_limit_price ≡ ok v
    → IsAuthorized i d v.0 v.1
unfolding validate_approval_pair
validate_approval_pair_inversion i d v h e =
    let a = raise_if_inversion (not (is_approved d.status)) _ _ h in
    let b = raise_if_inversion (not (d.intent_id == i.intent_id)) _ _ a.1 in
    let c = raise_if_inversion (not (d.correlation_id == i.correlation_id)) _ _ b.1 in
    let t =
      raise_if_inversion (is_none d.approved_quantity || is_none d.approved_limit_price) _ _ c.1 in
    let (q, p) = values_given d.approved_quantity d.approved_limit_price v e in
    record {
      is_approval = ground (arith, a.0);
      same_intent = ground (arith, b.0, text_eqb_iff d.intent_id i.intent_id);
      same_correlation = ground (arith, c.0, text_eqb_iff d.correlation_id i.correlation_id);
      quantity_given = q;
      price_given = p;
      within = within_intent d.approved_quantity v.0 i.quantity q t.1;
    }

pub authorized_validates :
    (i : OrderIntent) (d : RiskDecision) (q p : ℕ)
    → IsAuthorized i d q p
    → validate_approval_pair i d ≡ ok tt
unfolding validate_approval_pair
authorized_validates i d q p a =
    let in_bounds : ltb i.quantity q ≡ false = ground (arith, a.within) in
    rw (a.is_approval, a.quantity_given, a.price_given, in_bounds)
      (ground (
        arith,
        a.same_intent,
        a.same_correlation,
        text_eqb_iff d.intent_id i.intent_id,
        text_eqb_iff d.correlation_id i.correlation_id,
      ))

make_approved_order_inversion :
    (o o' : ApprovedOrder) → make_approved_order o ≡ ok o' → (o' ≡ o) × (1 ≤ o.quantity)
unfolding make_approved_order
make_approved_order_inversion o o' h =
    let a =
      raise_if_inversion
        (is_bad_length 64 o.exchange
          || nat_eqb o.quantity 0
          || is_bad_length 256 o.client_order_id
          || is_bad_length 256 o.idempotency_key)
        _ _ h in
    let b = bind_inversion (validate_order_pricing o.order_type o.limit_price o.post_only) _ a.1 in
    let c = raise_if_inversion (expires_by o.approved_at o.approval_expires_at) _ _ b.1 in
    (ground (arith, c.1), ground (arith, a.0))

make_references_inversion : (r r' : References) → make_references r ≡ ok r' → r' ≡ r
unfolding make_references
make_references_inversion r r' h =
    let a = bind_inversion (validate_reference r.client_order_id) _ h in
    let b = bind_inversion (validate_reference r.idempotency_key) _ a.1 in ground (arith, b.1)

-- An order is built only from an approval of the same intent, for the approved quantity, which is
-- positive and not above the intent's, at the approved price and until the approval's end; it
-- trades the intent's market, contract, outcome and side.
pub build_approved_order_lem :
    (generate : OrderIntent → RiskDecision → Text → Text → References) (i : OrderIntent)
    (d : RiskDecision) (exchange account : Text) (o : ApprovedOrder)
    → build_approved_order generate i d exchange account ≡ ok o
    → (p : ℕ) × IsAuthorized i d o.quantity p
      × (o.limit_price ≡ some p)
      × (1 ≤ o.quantity)
      × (o.intent_id ≡ i.intent_id)
      × (o.risk_decision_id ≡ d.risk_decision_id)
      × (o.market_id ≡ i.market_id)
      × (o.contract_id ≡ i.contract_id)
      × (o.outcome_id ≡ i.outcome_id)
      × (o.side ≡ i.side)
      × (o.approval_expires_at ≡ d.approval_expires_at)
unfolding build_approved_order
build_approved_order_lem generate i d exchange account o h =
    let a = bind_inversion (validate_approval_pair i d) _ h in
    let b = bind_inversion (validate_exchange exchange) _ a.1 in
    let (v, given, rest) =
      bind_value (approved_values d.approved_quantity d.approved_limit_price) _ b.1 in
    let (r, made, last) = bind_value (make_references (generate i d exchange account)) _ rest in
    let (e, positive) = make_approved_order_inversion (order_of i d exchange account v r) o last in
    let auth = validate_approval_pair_inversion i d v a.0 given in
    rw e (v.1, auth, refl, positive, refl, refl, refl, refl, refl, refl, refl)

make_approved_order_lem :
    (o : ApprovedOrder) (p : ℕ)
    → is_bad_length 64 o.exchange ≡ false
    → 1 ≤ o.quantity
    → is_bad_length 256 o.client_order_id ≡ false
    → is_bad_length 256 o.idempotency_key ≡ false
    → o.limit_price ≡ some p
    → (not (is_limit o.order_type) && o.post_only) ≡ false
    → expires_by o.approved_at o.approval_expires_at ≡ false
    → make_approved_order o ≡ ok o
unfolding make_approved_order
make_approved_order_lem o p x n y z price w e =
    let positive : nat_eqb o.quantity 0 ≡ false = ground (arith, n) in
    rw (x, positive, y, z, price, w, e)
      (elim (Bool-cases (is_limit o.order_type)) [ inl t ↦ rw t refl | inr f ↦ rw f refl ])

make_references_lem :
    (r : References)
    → is_bad_length 256 r.client_order_id ≡ false
    → is_bad_length 256 r.idempotency_key ≡ false
    → make_references r ≡ ok r
unfolding make_references
make_references_lem r x y = ground (arith, x, y)

-- An authorized order is built.
pub authorized_builds :
    (generate : OrderIntent → RiskDecision → Text → Text → References) (i : OrderIntent)
    (d : RiskDecision) (exchange account : Text) (q p : ℕ)
    → IsAuthorized i d q p
    → 1 ≤ q
    → expires_by d.evaluated_at d.approval_expires_at ≡ false
    → is_bad_length 64 exchange ≡ false
    → is_bad_length 256 (generate i d exchange account).client_order_id ≡ false
    → is_bad_length 256 (generate i d exchange account).idempotency_key ≡ false
    → (not (is_limit i.order_type) && i.post_only) ≡ false
    → build_approved_order generate i d exchange account
      ≡ ok (order_of i d exchange account (q, p) (generate i d exchange account))
unfolding build_approved_order
authorized_builds generate i d exchange account q p a n e x y z w =
    let exchange_ok : validate_exchange exchange ≡ ok tt = ground (arith, x) in
    rw
      (
        authorized_validates i d q p a,
        exchange_ok,
        values_ok d.approved_quantity d.approved_limit_price q p a.quantity_given a.price_given,
        make_references_lem (generate i d exchange account) y z,
      )
      (make_approved_order_lem
        (order_of i d exchange account (q, p) (generate i d exchange account)) p x n y z refl w e)

ok_inversion :
    (d d' : RiskDecision) (r : Result RiskError RiskDecision) → r ≡ ok d → r ≡ ok d' → d ≡ d'
ok_inversion d d' r h k = ground arith

given_price :
    (passed : Bool) (o : Option ℕ) → (passed && not (is_none o)) ≡ true → (p : ℕ) × (o ≡ some p)
given_price passed none h = ground arith
given_price passed (some p) h = (p, refl)

-- The engine's approval authorizes the intent's own quantity and limit price.
pub evaluate-IsAuthorized :
    {X : Type 0} (engine : RiskEngine X) (intent : OrderIntent) (context : RiskContext X)
    (id : Text) (d : RiskDecision)
    → IsReadyCall engine intent context id
    → evaluate engine intent context id ≡ ok d
    → is_approved d.status ≡ true
    → (p : ℕ) × (intent.limit_price ≡ some p)
      × IsAuthorized intent d intent.quantity p
      × (d.evaluated_at ≡ context.evaluated_at)
      × (d.approval_expires_at ≡ expiry context.evaluated_at engine.approval_ttl)
evaluate-IsAuthorized engine intent context id d c ran granted =
    let (d', ran', verdict, same_intent, same_correlation, at, quantity, price, ends) =
      evaluate_lem engine intent context id c in
    let same : d' ≡ d = ok_inversion d' d _ ran' ran in
    let is_granted : is_approved d'.status ≡ true =
      ap (λ (e : RiskDecision). is_approved e.status) same ∙ granted in
    let status = is_approved_inversion d'.status is_granted in
    let (p, given) = given_price _ intent.limit_price (sym verdict ∙ is_granted) in
    (
      p,
      given,
      subst (λ (e : RiskDecision). IsAuthorized intent e intent.quantity p) same
          (record {
            is_approval = is_granted;
            same_intent = same_intent;
            same_correlation = same_correlation;
            quantity_given =
                quantity
                ∙ ap (λ (s : RiskDecisionStatus). if_approved s (some intent.quantity)) status;
            price_given =
                price
                ∙ ap (λ (s : RiskDecisionStatus). if_approved s intent.limit_price) status
                ∙ given;
            within = omega arith;
          }),
      ap (λ (e : RiskDecision). e.evaluated_at) (sym same) ∙ at,
      ap (λ (e : RiskDecision). e.approval_expires_at) (sym same)
          ∙ ends
          ∙ ap
              (λ (s : RiskDecisionStatus).
                if_approved s (expiry context.evaluated_at engine.approval_ttl))
              status,
    )

-- A decision that the engine approves always becomes an order, for the intent's own quantity and
-- limit price, where the exchange's name and the references fit and a market order is not
-- post-only.
pub evaluate-build_approved_order :
    {X : Type 0} (engine : RiskEngine X) (intent : OrderIntent) (context : RiskContext X)
    (id : Text) (generate : OrderIntent → RiskDecision → Text → Text → References)
    (d : RiskDecision) (exchange account : Text)
    → IsReadyCall engine intent context id
    → evaluate engine intent context id ≡ ok d
    → is_approved d.status ≡ true
    → is_bad_length 64 exchange ≡ false
    → is_bad_length 256 (generate intent d exchange account).client_order_id ≡ false
    → is_bad_length 256 (generate intent d exchange account).idempotency_key ≡ false
    → (not (is_limit intent.order_type) && intent.post_only) ≡ false
    → (o : ApprovedOrder) × (build_approved_order generate intent d exchange account ≡ ok o)
      × (o.quantity ≡ intent.quantity)
      × (o.limit_price ≡ intent.limit_price)
      × (o.approval_expires_at ≡ expiry context.evaluated_at engine.approval_ttl)
evaluate-build_approved_order engine intent context id generate d exchange account c ran granted x y
      z w =
    let (p, price, a, at, ends) = evaluate-IsAuthorized engine intent context id d c ran granted in
    let in_time =
      ap (λ (t : ℕ). expires_by t d.approval_expires_at) at
      ∙ ap (expires_by context.evaluated_at) ends
      ∙ expires_by-expiry context.evaluated_at engine.approval_ttl c.ttl_positive in
    (
      order_of intent d exchange account (intent.quantity, p) (generate intent d exchange account),
      authorized_builds generate intent d exchange account intent.quantity p a c.quantity_positive
          in_time x y z w,
      refl,
      sym price,
      ends,
    )
