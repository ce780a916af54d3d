-- ===== src/Bus/InProcess/Invariant.antt =====
-- Every operation of the bus keeps it valid.
use pmrp.Common.{
  ℕ, ◌≡◌, refl, ap, ◌∙◌, subst, inl, inr, false, Option, List, [], ◌∷◌, arith, length, All,
  Bool-cases, Option-cases, any_of-map-keep_if, if_both,
}
use pmrp.Common.Text.{Text, text_eq, text_eqb_iff, is_blank_or_padded}
use pmrp.Common.Dict.{
  Dict, get, put, contains, IsUnique, put-IsUnique, All-put, All-get, remove-IsUnique, All-remove,
}
use pmrp.Common.Result.{Result, ok, raise}
use pmrp.Bus.Subscription.{
  Subscription, QueueItem, event, closed_mark, BusError, full, receive, take_item,
  create_subscription, close_subscription,
}
use pmrp.Bus.Subscription.Fifo.{
  IsValid, publish_nowait-accepts, accepted-IsValid, create_subscription-registered,
  close_subscription-open, EndsBy, events,
}
use pmrp.Bus.InProcess.{
  EventBus, Typing, values, matching_subscriptions, deliver, count_delivery, publish,
  event_partition_key, subscribe, add_subscription, consume, close_registered, close_all, close_bus,
  unregister, size_or,
}
use pmrp.Bus.InProcess.Delivery.{
  IsValidBus, IsRegistered, accepted, matching-CanTake, CanTake, publish-open, publish-closed,
}

module _ {T E : Type 0} where
  deliver-IsValidBus :
      (e : E) (ss : List (Subscription T E)) (d₀ d : Dict Text (Subscription T E))
      → All (CanTake d₀) ss
      → IsUnique d
      → All IsRegistered d
      → let d' = (deliver e ss d).1 in IsUnique d' × All IsRegistered d'
  unfolding deliver
  deliver-IsValidBus e [] d₀ d h u r = (u, r)
  deliver-IsValidBus e (s ∷ ss) d₀ d h u r =
      let (found, o, v, room) = h.0 in
      rw (publish_nowait-accepts s e v o room, deliver)
        (deliver-IsValidBus e ss d₀ (put s.consumer_name (accepted e s) d) h.1
          (put-IsUnique s.consumer_name (accepted e s) d u)
          (All-put IsRegistered s.consumer_name (accepted e s) d
            (refl, o, accepted-IsValid s e v room) r))

  -- Taking an item from a registered subscription leaves it open and valid.
  take_item-IsValid :
      (q : List (QueueItem E)) (s : Subscription T E)
      → s.queue ≡ q
      → s.closed ≡ false
      → IsValid false s
      → let s' = (take_item q s).1 in
        (s'.consumer_name ≡ s.consumer_name) × (s'.closed ≡ false) × IsValid false s'
  take_item-IsValid [] s e o v = (refl, o, v)
  take_item-IsValid (event x ∷ q) s e o v = (
    refl,
    o,
    record {
      positive = v.positive;
      counted = omega (arith, v.counted, ap (λ (r : List (QueueItem E)). length (events r)) e);
      bounded = omega arith;
      mark_at_end = subst (EndsBy false) e v.mark_at_end;
      open_unmarked = λ h. refl;
    },
  )
  take_item-IsValid (closed_mark ∷ q) s e o v = absurd (cc (subst (EndsBy false) e v.mark_at_end).0)

  -- A consumer that takes an item leaves the bus valid.
  pub consume-IsValidBus :
      (name : Text) (b : EventBus T E) → IsValidBus b → IsValidBus (consume name b).1
  unfolding consume receive
  consume-IsValidBus name b v = elim (Option-cases (get name b.subscriptions)) [
    | inl e ↦ rw (e, consume) v
    | inr (s, e) ↦
        let r = All-get IsRegistered name s b.subscriptions v.registered e in
        let kept = take_item-IsValid s.queue s refl r.1 r.2 in
        rw (e, consume)
          (record {
            unique = put-IsUnique name _ b.subscriptions v.unique;
            registered =
                All-put IsRegistered name _ b.subscriptions (kept.0 ∙ r.0, kept.1, kept.2)
                  v.registered;
          })
  ]

  subscribe-IsValidBus :
      (t : T) (name : Text) (key : Option Text) (size : Option ℕ) (b : EventBus T E)
      → IsValidBus b
      → IsValidBus (subscribe t name key size b).1
  unfolding subscribe
  subscribe-IsValidBus t name key size b v =
      let made = create_subscription t name key (size_or size b.default_queue_size) in
      let P = λ (out : Result BusError (Unit {0}) × EventBus T E). IsValidBus out.1 in
      if_both P b.closed _ _ v (
        if_both P (is_blank_or_padded name) _ _ v (
          if_both P (contains name b.subscriptions) _ _ v
            (added made λ s e. create_subscription-registered t name key _ s e)))
    where
      added :
          (made : Result BusError (Subscription T E))
          → ((s : Subscription T E) → made ≡ ok s → (s.closed ≡ false) × IsValid false s)
          → IsValidBus (add_subscription made b).1
      added (raise x) h = v
      added (ok s) h = record {
        unique = put-IsUnique s.consumer_name s b.subscriptions v.unique;
        registered =
            All-put IsRegistered s.consumer_name s b.subscriptions
              (refl, (h s refl).0, (h s refl).1) v.registered;
      }

  -- A client that closes a registered subscription removes it from the bus, which stays valid.
  close_registered-IsValidBus :
      (name : Text) (b : EventBus T E) → IsValidBus b → IsValidBus (close_registered name b).1
  unfolding close_registered
  close_registered-IsValidBus name b v = elim (Option-cases (get name b.subscriptions)) [
    | inl e ↦ rw (e, close_registered) v
    | inr (s, e) ↦
        let r = All-get IsRegistered name s b.subscriptions v.registered e in
        rw (e, close_subscription-open s r.2 r.1, r.1, close_registered)
          (record {
            unique = remove-IsUnique s.consumer_name b.subscriptions v.unique;
            registered = All-remove IsRegistered s.consumer_name b.subscriptions v.registered;
          })
  ]

  unregister_lem :
      (k : Text) (s : Subscription T E) (d : Dict Text (Subscription T E))
      → IsRegistered (k, s)
      → unregister s (close_subscription s) ((k, s) ∷ d) ≡ (ok tt, d)
  unregister_lem k s d r =
      ground (arith, r, close_subscription-open s r.2 r.1, text_eqb_iff k s.consumer_name)

  -- Closing removes every subscription; no mark fails to find room.
  pub close_all_lem :
      (d : Dict Text (Subscription T E)) → All IsRegistered d → close_all (values d) d ≡ (ok tt, [])
  unfolding close_all
  close_all_lem [] r = refl
  close_all_lem ((k, s) ∷ d) r =
      let out = unregister_lem k s d r.0 in
      rw (out, close_all)
        (ap
            (λ (o : Result BusError (Unit {0}) × Dict Text (Subscription T E)).
              close_all (values d) o.1)
            out
          ∙ close_all_lem d r.1)

  module _ (ty : Typing T E) where
    publish-IsValidBus :
        (e : E) (key : Option Text) (b : EventBus T E)
        → IsValidBus b
        → IsValidBus (publish ty e key b).1
    publish-IsValidBus e key b v =
        let part = event_partition_key ty.market_id e key in
        let ss = matching_subscriptions ty e part b in
        elim (Bool-cases b.closed) [
          | inl shut ↦ rw (publish-closed ty e key b shut) v
          | inr o ↦
              rw (publish-open ty e key b o)
                (elim (any_of-map-keep_if (λ (s : Subscription T E). s.consumer_name) full ss) [
                  | inl (nobody, room) ↦ rw nobody (
                      counted ss (deliver e ss b.subscriptions) b v (
                        deliver-IsValidBus e ss b.subscriptions b.subscriptions
                          (matching-CanTake ty e part b v room) v.unique v.registered))
                  | inr (n, ns, listed, crowded) ↦
                      rw listed (record { unique = v.unique; registered = v.registered })
                ])
        ]
      where
        counted :
            (ss : List (Subscription T E))
            (out : Result BusError (Unit {0}) × Dict Text (Subscription T E)) (b : EventBus T E)
            → IsValidBus b
            → IsUnique out.1 × All IsRegistered out.1
            → IsValidBus (count_delivery ss out b).1
        counted ss (raise x, d) b v h = record { unique = h.0; registered = h.1 }
        counted ss (ok _, d) b v h = record { unique = h.0; registered = h.1 }

    -- The calls that the bus's clients make.
    pub data BusCall : Type 0 where
      publishes : E → Option Text → BusCall
      subscribes : T → Text → Option Text → Option ℕ → BusCall
      consumes : Text → BusCall
      closes_subscription : Text → BusCall
      closes : BusCall

    unfoldable pub bus_step : BusCall → EventBus T E → EventBus T E
    bus_step (publishes e key) b = (publish ty e key b).1
    bus_step (subscribes t name key size) b = (subscribe t name key size b).1
    bus_step (consumes name) b = (consume name b).1
    bus_step (closes_subscription name) b = (close_registered name b).1
    bus_step closes b = (close_bus b).1

    unfoldable pub bus_run : List BusCall → EventBus T E → EventBus T E
    bus_run [] b = b
    bus_run (c ∷ cs) b = bus_run cs (bus_step c b)

    close_bus-IsValidBus : (b : EventBus T E) → IsValidBus b → IsValidBus (close_bus b).1
    unfolding close_bus
    close_bus-IsValidBus b v =
        if_both (λ (out : Result BusError (Unit {0}) × EventBus T E). IsValidBus out.1) b.closed _ _
          v
          (rw (close_all_lem b.subscriptions v.registered)
            (record { unique = tt; registered = tt }))

    pub bus_step-IsValidBus :
        (c : BusCall) (b : EventBus T E) → IsValidBus b → IsValidBus (bus_step c b)
    unfolding bus_step
    bus_step-IsValidBus (publishes e key) b v = publish-IsValidBus e key b v
    bus_step-IsValidBus (subscribes t name key size) b v = subscribe-IsValidBus t name key size b v
    bus_step-IsValidBus (consumes name) b v = consume-IsValidBus name b v
    bus_step-IsValidBus (closes_subscription name) b v = close_registered-IsValidBus name b v
    bus_step-IsValidBus closes b v = close_bus-IsValidBus b v

    -- Whatever of these calls are made (publications, subscriptions, a consumer's taking of an item,
    -- the closing of a registered subscription and of the bus), in whatever order, the bus stays
    -- valid: no name is registered
    -- twice, every registered subscription stands under its own name and is open, and its reported
    -- depth is the number of its queued events and within its size.
    pub bus_run-IsValidBus :
        (cs : List BusCall) (b : EventBus T E) → IsValidBus b → IsValidBus (bus_run cs b)
    unfolding bus_run
    bus_run-IsValidBus [] b v = v
    bus_run-IsValidBus (c ∷ cs) b v =
        bus_run-IsValidBus cs (bus_step c b) (bus_step-IsValidBus c b v)
