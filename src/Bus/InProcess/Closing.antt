-- ===== src/Bus/InProcess/Closing.antt =====
-- The closing of the bus, after any calls and before any.
use pmrp.Common.{
  ℕ, ◌≡◌, refl, sym, ap, ◌∙◌, subst, ◌⊎◌, inl, inr, true, false, Option, List, [], ◌∷◌, arith,
  Option-cases, if_both,
}
use pmrp.Common.Equality.{option_eq}
use pmrp.Common.Text.{Text, text_eq, is_blank_or_padded}
use pmrp.Common.Dict.{Dict, get, contains}
use pmrp.Common.Result.{Result, ok, raise}
use pmrp.Bus.Subscription.{Subscription, BusError, create_subscription}
use pmrp.Bus.InProcess.{
  EventBus, Typing, publish, subscribe, add_subscription, consume, close_registered, close_bus,
  count_delivery, publish_to, matching_subscriptions, event_partition_key, size_or, deliver,
}
use pmrp.Bus.InProcess.Delivery.{IsValidBus, publish-open, publish-closed}
use pmrp.Bus.InProcess.Invariant.{
  BusCall, publishes, subscribes, consumes, closes_subscription, closes, bus_step, bus_run,
  close_all_lem, bus_step-IsValidBus, bus_run-IsValidBus,
}

module _ {T E : Type 0} where
  -- A bus is open, or it is closed and has no subscription.
  abbrev Settled : EventBus T E → Type 0
  Settled b = (b.closed ≡ false) ⊎ ((b.closed ≡ true) × (b.subscriptions ≡ []))

  closed-bus :
      (b : EventBus T E)
      → IsValidBus b
      → Settled b
      → let (r, b') = close_bus b in (r ≡ ok tt) × (b'.closed ≡ true) × (b'.subscriptions ≡ [])
  unfolding close_bus
  closed-bus b v (inl o) = ground (arith, o, close_all_lem b.subscriptions v.registered)
  closed-bus b v (inr (c, n)) = ground (arith, c, n)

  consume-stays :
      (name : Text) (b : EventBus T E) → b.closed ≡ false → (consume name b).1.closed ≡ false
  unfolding consume
  consume-stays name b o = elim (Option-cases (get name b.subscriptions)) [
    | inl e ↦ rw (e, consume) o
    | inr (s, e) ↦ rw (e, consume) o
  ]

  close_registered-stays :
      (name : Text) (b : EventBus T E)
      → b.closed ≡ false
      → (close_registered name b).1.closed ≡ false
  unfolding close_registered
  close_registered-stays name b o = elim (Option-cases (get name b.subscriptions)) [
    | inl e ↦ rw (e, close_registered) o
    | inr (s, e) ↦ rw (e, close_registered) o
  ]

  module _ (ty : Typing T E) where
    -- No call changes a closed bus without subscriptions.
    bus_step-closed :
        (c : BusCall ty) (b : EventBus T E)
        → b.closed ≡ true
        → b.subscriptions ≡ []
        → bus_step ty c b ≡ b
    unfolding bus_step subscribe consume close_registered close_bus
    bus_step-closed (publishes e key) b c n =
        ap (λ (o : Result BusError (Unit {0}) × EventBus T E). o.1) (publish-closed ty e key b c)
    bus_step-closed (subscribes t name key size) b c n = rw c refl
    bus_step-closed (consumes name) b c n = rw n refl
    bus_step-closed (closes_subscription name) b c n = rw n refl
    bus_step-closed closes b c n = rw c refl

    bus_run-closed :
        (cs : List (BusCall ty)) (b : EventBus T E)
        → b.closed ≡ true
        → b.subscriptions ≡ []
        → bus_run ty cs b ≡ b
    unfolding bus_run
    bus_run-closed [] b c n = refl
    bus_run-closed (x ∷ cs) b c n =
        ap (bus_run ty cs) (bus_step-closed x b c n) ∙ bus_run-closed cs b c n

    publish-stays :
        (e : E) (key : Option Text) (b : EventBus T E)
        → b.closed ≡ false
        → (publish ty e key b).1.closed ≡ false
    publish-stays e key b o =
        let ss = matching_subscriptions ty e (event_partition_key ty.market_id e key) b in
        rw (publish-open ty e key b o) (kept ss _)
      where
        counted :
            (ss : List (Subscription T E))
            (out : Result BusError (Unit {0}) × Dict Text (Subscription T E))
            → (count_delivery ss out b).1.closed ≡ false
        counted ss (raise x, d) = o
        counted ss (ok _, d) = o

        kept :
            (ss : List (Subscription T E)) (ns : List Text)
            → (publish_to e ss ns b).1.closed ≡ false
        kept ss [] = counted ss (deliver e ss b.subscriptions)
        kept ss (n ∷ ns) = o

    subscribe-stays :
        (t : T) (name : Text) (key : Option Text) (size : Option ℕ) (b : EventBus T E)
        → b.closed ≡ false
        → (subscribe t name key size b).1.closed ≡ false
    unfolding subscribe
    subscribe-stays t name key size b o =
        let P = λ (out : Result BusError (Unit {0}) × EventBus T E). out.1.closed ≡ false in
        if_both P b.closed _ _ o (
          if_both P (is_blank_or_padded name) _ _ o (
            if_both P (contains name b.subscriptions) _ _ o
              (added (create_subscription t name key (size_or size b.default_queue_size)))))
      where
        added :
            (made : Result BusError (Subscription T E)) → (add_subscription made b).1.closed ≡ false
        added (raise x) = o
        added (ok s) = o

    bus_step-Settled :
        (c : BusCall ty) (b : EventBus T E) → IsValidBus b → Settled b → Settled (bus_step ty c b)
    unfolding bus_step
    bus_step-Settled c b v (inr (shut, n)) =
        subst (λ (x : EventBus T E). Settled x) (sym (bus_step-closed c b shut n)) (inr (shut, n))
    bus_step-Settled (publishes e key) b v (inl o) = inl (publish-stays e key b o)
    bus_step-Settled (subscribes t name key size) b v (inl o) =
        inl (subscribe-stays t name key size b o)
    bus_step-Settled (consumes name) b v (inl o) = inl (consume-stays name b o)
    bus_step-Settled (closes_subscription name) b v (inl o) = inl (close_registered-stays name b o)
    bus_step-Settled closes b v (inl o) = let (_, c, n) = closed-bus b v (inl o) in inr (c, n)

    bus_run-Settled :
        (cs : List (BusCall ty)) (b : EventBus T E)
        → IsValidBus b
        → Settled b
        → Settled (bus_run ty cs b)
    unfolding bus_run
    bus_run-Settled [] b v s = s
    bus_run-Settled (c ∷ cs) b v s =
        bus_run-Settled cs (bus_step ty c b) (bus_step-IsValidBus ty c b v)
          (bus_step-Settled c b v s)

    -- On a valid bus that starts open, after any of the calls, `close` does not raise and leaves the
    -- bus closed with no subscription, and no call after it changes the bus.
    pub close_bus_lem :
        (before after : List (BusCall ty)) (b : EventBus T E)
        → IsValidBus b
        → b.closed ≡ false
        → let (r, b') = close_bus (bus_run ty before b) in
          (r ≡ ok tt) × (b'.closed ≡ true) × (b'.subscriptions ≡ []) × (bus_run ty after b' ≡ b')
    close_bus_lem before after b v o =
        let (r, c, n) =
          closed-bus (bus_run ty before b) (bus_run-IsValidBus ty before b v)
            (bus_run-Settled before b v (inl o)) in
        (r, c, n, bus_run-closed after _ c n)
