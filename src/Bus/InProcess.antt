-- ===== src/Bus/InProcess.antt =====
-- `InProcessEventBus` (bus/in_process.py). The bus's table and its consumers share the
-- subscription objects: the table's entry under a name is the object's state. `publish` and
-- `close` hold the publish lock and await nothing that changes the table, so each is one step.
pub mod Delivery
pub mod Invariant
pub mod DeliveryOrder
pub mod Closing
use pmrp.Common.{
  ℕ, suc, ◌+◌, Bool, true, false, not, ◌&&◌, ◌||◌, Option, none, some, List, [], ◌∷◌, ◌++◌, map,
  length, keep_if, if◌then◌else◌,
}
use pmrp.Common.Equality.{◌==◌, option_eq}
use pmrp.Common.Text.{Text, text_eq, is_blank_or_padded}
use pmrp.Common.Dict.{Dict, get, put, contains, remove}
use pmrp.Common.Sort.{Order, order_by, lex_order, text_order, sorted}
use pmrp.Common.Result.{Result, ok, raise}
use pmrp.Bus.Subscription.{
  Subscription, BusError, bus_closed, backpressure, invalid_consumer_name, duplicate_consumer,
  Received, waits, create_subscription, full, publish_nowait, receive, close_subscription,
}

pub record EventBus (T E : Type 0) : Type 0 where
  pub default_queue_size : ℕ
  pub deterministic : Bool
  pub subscriptions : Dict Text (Subscription T E)
  pub closed : Bool
  pub published_events : ℕ
  pub delivered_events : ℕ
  pub backpressure_events : ℕ
  pub last_delivery_order : List Text

-- What the bus asks Python of events and classes: `isinstance`, the attribute `market_id` as a
-- text, and a class's module and qualified name.
pub record Typing (T E : Type 0) : Type 0 where
  pub isinstance : E → T → Bool
  pub market_id : E → Option Text
  pub type_module : T → Text
  pub type_qualname : T → Text

abbrev pub values : {T E : Type 0} → Dict Text (Subscription T E) → List (Subscription T E)
values = map (λ p. p.1)

abbrev pub names : {T E : Type 0} → List (Subscription T E) → List Text
names = map (λ s. s.consumer_name)

-- `partition_key or ""`
abbrev pub key_or_empty : Option Text → Text
key_or_empty none = []
key_or_empty (some k) = k

-- `_event_partition_key`
unfoldable pub event_partition_key :
    {E : Type 0} → (E → Option Text) → E → Option Text → Option Text
event_partition_key market_id e none = market_id e
event_partition_key market_id e (some k) = some k

module _ {T E : Type 0} (ty : Typing T E) where
  -- The sort key of `_ordered_subscriptions`.
  abbrev pub delivery_key : Subscription T E → List Text
  delivery_key s =
      s.consumer_name
      ∷ ty.type_module s.event_type
      ∷ ty.type_qualname s.event_type
      ∷ key_or_empty s.partition_key
      ∷ []

  abbrev pub delivery_order : Order (Subscription T E)
  delivery_order = order_by delivery_key (lex_order text_order)

  unfoldable pub ordered_subscriptions : Bool → List (Subscription T E) → List (Subscription T E)
  ordered_subscriptions deterministic ss = if deterministic then sorted delivery_order ss else ss

  -- The condition of the comprehension in `_matching_subscriptions`.
  unfoldable pub is_match : E → Option Text → Subscription T E → Bool
  is_match e key s =
      not s.closed
      && (ty.isinstance e s.event_type && (s.partition_key == none || s.partition_key == key))

  unfoldable pub matching_subscriptions : E → Option Text → EventBus T E → List (Subscription T E)
  matching_subscriptions e key b =
      keep_if (is_match e key) (ordered_subscriptions b.deterministic (values b.subscriptions))

-- The loop that delivers: an exception leaves the deliveries that were made.
unfoldable pub deliver :
    {T E : Type 0}
    → E
    → List (Subscription T E)
    → Dict Text (Subscription T E)
    → Result BusError (Unit {0}) × Dict Text (Subscription T E)
deliver e [] d = (ok tt, d)
deliver e (s ∷ ss) d = elim (publish_nowait s e) [
  | raise x ↦ (raise x, d)
  | ok s' ↦ deliver e ss (put s.consumer_name s' d)
]

module _ {T E : Type 0} where
  -- The end of `publish`, when the loop has ended.
  abbrev pub count_delivery :
      List (Subscription T E)
      → Result BusError (Unit {0}) × Dict Text (Subscription T E)
      → EventBus T E
      → Result BusError (Unit {0}) × EventBus T E
  count_delivery ss (raise x, d) b = (raise x, record b { subscriptions = d })
  count_delivery ss (ok _, d) b = (
    ok tt,
    record b {
      subscriptions = d;
      published_events = b.published_events + 1;
      delivered_events = b.delivered_events + length ss;
      last_delivery_order = names ss;
    },
  )

  -- What `publish` does with the matching subscriptions, given the names of those that are full.
  abbrev pub publish_to :
      E
      → List (Subscription T E)
      → List Text
      → EventBus T E
      → Result BusError (Unit {0}) × EventBus T E
  publish_to e ss [] b = count_delivery ss (deliver e ss b.subscriptions) b
  publish_to e ss (n ∷ ns) b =
      (raise (backpressure (n ∷ ns)), record b { backpressure_events = b.backpressure_events + 1 })

unfoldable pub publish :
    {T E : Type 0}
    → Typing T E
    → E
    → Option Text
    → EventBus T E
    → Result BusError (Unit {0}) × EventBus T E
publish ty e partition_key b =
    let ss = matching_subscriptions ty e (event_partition_key ty.market_id e partition_key) b in
    if b.closed then (raise bus_closed, b) else publish_to e ss (names (keep_if full ss)) b

-- `default if queue_size is None else queue_size`
abbrev pub size_or : Option ℕ → ℕ → ℕ
size_or none n = n
size_or (some m) n = m

module _ {T E : Type 0} where
  -- The registration that ends `subscribe`.
  abbrev pub add_subscription :
      Result BusError (Subscription T E) → EventBus T E → Result BusError (Unit {0}) × EventBus T E
  add_subscription (raise x) b = (raise x, b)
  add_subscription (ok s) b =
      (ok tt, record b { subscriptions = put s.consumer_name s b.subscriptions })

  pub subscribe :
      T → Text → Option Text → Option ℕ → EventBus T E → Result BusError (Unit {0}) × EventBus T E
  subscribe event_type consumer_name partition_key queue_size b =
      if b.closed
      then (raise bus_closed, b)
      else if is_blank_or_padded consumer_name
      then (raise invalid_consumer_name, b)
      else if contains consumer_name b.subscriptions
      then (raise duplicate_consumer, b)
      else add_subscription
          (create_subscription event_type consumer_name partition_key
            (size_or queue_size b.default_queue_size))
          b

  -- A consumer takes an item from the subscription registered under its name.
  pub consume : Text → EventBus T E → Received E × EventBus T E
  consume name b = elim (get name b.subscriptions) [
    | none ↦ (waits, b)
    | some s ↦
        let (r, s') = receive s in (r, record b { subscriptions = put name s' b.subscriptions })
  ]

  -- `close` of a registered subscription: the mark, then the callback `_remove_subscription`.
  abbrev pub unregister :
      Subscription T E
      → Result BusError (Unit {0}) × Subscription T E
      → Dict Text (Subscription T E)
      → Result BusError (Unit {0}) × Dict Text (Subscription T E)
  unregister s (raise x, s') d = (raise x, put s.consumer_name s' d)
  unregister s (ok _, s') d = (ok tt, if s.closed then d else remove s.consumer_name d)

  -- A client's `close` of the subscription registered under a name.
  pub close_registered : Text → EventBus T E → Result BusError (Unit {0}) × EventBus T E
  close_registered name b = elim (get name b.subscriptions) [
    | none ↦ (ok tt, b)
    | some s ↦
        let (r, d) = unregister s (close_subscription s) b.subscriptions in
        (r, record b { subscriptions = d })
  ]

  -- The loop of `close` over the subscriptions.
  pub close_all :
      List (Subscription T E)
      → Dict Text (Subscription T E)
      → Result BusError (Unit {0}) × Dict Text (Subscription T E)
  close_all [] d = (ok tt, d)
  close_all (s ∷ ss) d =
      let (r, d') = unregister s (close_subscription s) d in
      elim r [ raise x ↦ (raise x, d') | ok _ ↦ close_all ss d' ]

  -- `close`, up to its wait for the consumer tasks.
  pub close_bus : EventBus T E → Result BusError (Unit {0}) × EventBus T E
  close_bus b =
      let (r, d) = close_all (values b.subscriptions) b.subscriptions in
      if b.closed then (ok tt, b) else (r, record b { closed = true; subscriptions = d })
