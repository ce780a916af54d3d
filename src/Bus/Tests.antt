-- ===== src/Bus/Tests.antt =====
-- Concrete subscriptions, and the theorems of the bus at them.
use pmrp.Common.{
  ℕ, ◌≡◌, refl, ◌⊎◌, ◌≤◌, true, false, none, [], ◌∷◌, ◌++◌, length, arith, any_of, nat_eqb,
}
use pmrp.Common.Text.{Text, text_eq, text_eqb, str}
use pmrp.Common.Sort.{IsSorted, text_order, sorted}
use pmrp.Common.Dict.{get}
use pmrp.Common.Result.{ok}
use pmrp.Bus.Subscription.{Subscription, create_subscription, full, publish_nowait}
use pmrp.Bus.Subscription.Fifo.{publishes, receives, closes, run, run_fifo, events, IsValid}
use pmrp.Bus.InProcess.{
  EventBus, Typing, publish, matching_subscriptions, event_partition_key, is_match, close_bus,
  ordered_subscriptions, deliver,
}
use pmrp.Bus.InProcess.Delivery.{IsValidBus, Refused, Delivered, matched, publish_all_or_nothing}
use pmrp.Bus.InProcess.Invariant.{BusCall, bus_run, bus_run-IsValidBus}
use pmrp.Bus.InProcess.DeliveryOrder.{publish_in_order}
use pmrp.Bus.InProcess.Closing.{close_bus_lem}

-- Classes and events are numbers, and an event is of the class of its value.
abbrev typing : Typing ℕ ℕ
typing = record {
  isinstance = λ e t. nat_eqb e t;
  market_id = λ e. none;
  type_module = λ t. str "events";
  type_qualname = λ t. t ∷ [];
}

abbrev fresh : Text → Subscription ℕ ℕ
fresh name = record {
  event_type = 1;
  consumer_name = name;
  partition_key = none;
  queue_size = 2;
  queue = [];
  pending_events = 0;
  closed = false;
}

run_fifo_example :
    let t =
      run
        (publishes 1 ∷ publishes 2 ∷ publishes 3 ∷ receives ∷ closes ∷ [])
        (record { subscription = fresh (str "risk"); accepted = []; delivered = [] }) in
    (t.delivered ++ events t.subscription.queue ≡ t.accepted)
    × (t.subscription.pending_events ≡ length (events t.subscription.queue))
    × (t.subscription.pending_events ≤ t.subscription.queue_size)
unfolding create_subscription
run_fifo_example =
    run_fifo 1 (str "risk") none 2 (fresh (str "risk"))
      (publishes 1 ∷ publishes 2 ∷ publishes 3 ∷ receives ∷ closes ∷ []) refl

abbrev bus : EventBus ℕ ℕ
bus = record {
  default_queue_size = 4;
  deterministic = true;
  subscriptions = (str "z", fresh (str "z")) ∷ (str "a", fresh (str "a")) ∷ [];
  closed = false;
  published_events = 0;
  delivered_events = 0;
  backpressure_events = 0;
  last_delivery_order = [];
}

fresh-IsValid : (name : Text) → IsValid false (fresh name)
fresh-IsValid name = record {
  positive = omega arith;
  counted = refl;
  bounded = omega arith;
  mark_at_end = refl;
  open_unmarked = λ o. refl;
}

bus-IsValidBus : IsValidBus bus
bus-IsValidBus = record {
  unique = (refl, (refl, tt));
  registered = ((refl, refl, fresh-IsValid (str "z")), ((refl, refl, fresh-IsValid (str "a")), tt));
}

publish_all_or_nothing_example :
    let ss = matching_subscriptions typing 1 none bus in
    let (r, b) = publish typing 1 none bus in
    Refused (any_of full ss) r bus b
    ⊎ Delivered 1 (is_match typing 1 none) ss (any_of full ss) r bus b
unfolding event_partition_key
publish_all_or_nothing_example = publish_all_or_nothing typing 1 none bus bus-IsValidBus

bus_run-IsValidBus_example : IsValidBus (
    bus_run typing
      (BusCall.publishes 1 none
        ∷ BusCall.subscribes 2 (str "m") none none
        ∷ BusCall.consumes (str "a")
        ∷ BusCall.closes_subscription (str "m")
        ∷ BusCall.closes
        ∷ [])
      bus)
bus_run-IsValidBus_example =
    bus_run-IsValidBus typing
      (BusCall.publishes 1 none
        ∷ BusCall.subscribes 2 (str "m") none none
        ∷ BusCall.consumes (str "a")
        ∷ BusCall.closes_subscription (str "m")
        ∷ BusCall.closes
        ∷ [])
      bus bus-IsValidBus

publish_in_order_example :
    let order = (publish typing 1 none bus).1.last_delivery_order in
    IsSorted text_order order
    × ((k : Text)
        → any_of (λ n. text_eqb n k) order
          ≡ matched (is_match typing 1 none) (get k bus.subscriptions))
unfolding publish event_partition_key matching_subscriptions ordered_subscriptions is_match deliver
    publish_nowait sorted
publish_in_order_example = publish_in_order typing 1 none bus bus-IsValidBus refl refl

close_bus_lem_example :
    let (r, b) = close_bus (bus_run typing (BusCall.publishes 1 none ∷ []) bus) in
    (r ≡ ok tt)
    × (b.closed ≡ true)
    × (b.subscriptions ≡ [])
    × (bus_run typing (BusCall.publishes 1 none ∷ BusCall.closes ∷ []) b ≡ b)
close_bus_lem_example =
    close_bus_lem typing (BusCall.publishes 1 none ∷ [])
      (BusCall.publishes 1 none ∷ BusCall.closes ∷ []) bus bus-IsValidBus refl
