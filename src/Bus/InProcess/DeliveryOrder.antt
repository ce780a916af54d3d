-- ===== src/Bus/InProcess/DeliveryOrder.antt =====
-- The order of the deliveries of the deterministic bus.
use pmrp.Common.{
  ◌≡◌, refl, sym, ap, ◌∙◌, subst, inl, inr, true, Option, List, [], ◌∷◌, arith, any_of, All,
  if◌then◌else◌,
}
use pmrp.Common.Equality.{option_eq}
use pmrp.Common.Text.{Text, text_eq, text_eqb}
use pmrp.Common.Dict.{get}
use pmrp.Common.Sort.{
  IsSorted, lex_leb, text_order, nat_order, sorted, sorted-IsSorted, keep_if-IsSorted,
}
use pmrp.Common.Result.{ok}
use pmrp.Bus.Subscription.{Subscription}
use pmrp.Bus.InProcess.{
  EventBus, Typing, values, names, is_match, ordered_subscriptions, matching_subscriptions, publish,
  event_partition_key, delivery_order,
}
use pmrp.Bus.InProcess.Delivery.{
  IsValidBus, has_name, matched, matching-named, publish_all_or_nothing,
}

module _ {T E : Type 0} where
  any_of-names :
      (k : Text) (ss : List (Subscription T E))
      → any_of (λ n. text_eqb n k) (names ss) ≡ any_of (has_name k) ss
  any_of-names k [] = refl
  any_of-names k (s ∷ ss) = ground (arith, any_of-names k ss)

  module _ (ty : Typing T E) where
    names-IsSorted :
        (ss : List (Subscription T E))
        → IsSorted (delivery_order ty) ss
        → IsSorted text_order (names ss)
    names-IsSorted [] s = tt
    names-IsSorted (x ∷ ss) s = (heads ss s.0, names-IsSorted ss s.1)
      where
        heads :
            (ss : List (Subscription T E))
            → All (λ y. (delivery_order ty).le x y ≡ true) ss
            → All (λ n. lex_leb nat_order x.consumer_name n ≡ true) (names ss)
        heads [] h = tt
        heads (y ∷ ss) h = (ground (arith, h.0), heads ss h.1)

    matching-IsSorted :
        (e : E) (key : Option Text) (b : EventBus T E)
        → b.deterministic ≡ true
        → IsSorted text_order (names (matching_subscriptions ty e key b))
    unfolding matching_subscriptions ordered_subscriptions
    matching-IsSorted e key b d = names-IsSorted _ (
        keep_if-IsSorted (delivery_order ty) (is_match ty e key) _ (
          subst
            (λ t. IsSorted (delivery_order ty) (
              if t
              then sorted (delivery_order ty) (values b.subscriptions)
              else values b.subscriptions))
            (sym d) (sorted-IsSorted (delivery_order ty) (values b.subscriptions))))

    -- A publication that returns on a valid deterministic bus leaves as its delivery order the
    -- names of just the registered subscriptions that match the event, sorted.
    pub publish_in_order :
        (e : E) (partition_key : Option Text) (b : EventBus T E)
        → IsValidBus b
        → b.deterministic ≡ true
        → (publish ty e partition_key b).0 ≡ ok tt
        → let order = (publish ty e partition_key b).1.last_delivery_order in
          let key = event_partition_key ty.market_id e partition_key in
          IsSorted text_order order
          × ((k : Text)
              → any_of (λ n. text_eqb n k) order
                ≡ matched (is_match ty e key) (get k b.subscriptions))
    publish_in_order e partition_key b v d returned =
        let key = event_partition_key ty.market_id e partition_key in
        elim (publish_all_or_nothing ty e partition_key b v) [
          | inl refused ↦ absurd (refused.raised returned)
          | inr done ↦ (
            subst (λ (ns : List Text). IsSorted text_order ns) (sym done.order)
                (matching-IsSorted e key b d),
            λ k.
                ap (λ (ns : List Text). any_of (λ n. text_eqb n k) ns) done.order
                ∙ any_of-names k (matching_subscriptions ty e key b)
                ∙ matching-named ty e key k b v,
          )
        ]
