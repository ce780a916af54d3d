-- ===== src/Bus/Subscription.antt =====
-- `QueuedEventSubscription` (bus/subscription.py): a bounded queue from the bus to one consumer.
-- `T` is the type of event classes and `E` that of events. `asyncio.Queue` is a list with a bound.
pub mod Fifo
use pmrp.Common.{
  ℕ, suc, ◌+◌, ◌-◌, Bool, true, false, Option, none, some, List, [], ◌∷◌, ◌++◌, leb, ltb, length,
  if◌then◌else◌,
}
use pmrp.Common.Result.{Result, ok, raise}
use pmrp.Common.Text.{Text}

-- `_QueueItem`: an event, or the mark that `close` leaves.
pub data QueueItem (E : Type 0) : Type 0 where
  event : E → QueueItem E
  closed_mark : QueueItem E

pub record Subscription (T E : Type 0) : Type 0 where
  pub event_type : T
  pub consumer_name : Text
  pub partition_key : Option Text
  pub queue_size : ℕ
  pub queue : List (QueueItem E)
  pub pending_events : ℕ
  pub closed : Bool

-- The exceptions of the bus (bus/errors.py), and `asyncio.QueueFull`.
pub data BusError : Type 0 where
  bus_closed : BusError
  subscription_closed : BusError
  backpressure : List Text → BusError
  queue_full : BusError
  invalid_queue_size : BusError
  invalid_consumer_name : BusError
  duplicate_consumer : BusError

-- What `__anext__` does: it waits, returns an event, or raises `StopAsyncIteration`.
pub data Received (E : Type 0) : Type 0 where
  waits : Received E
  received : E → Received E
  stopped : Received E

-- `QueuedEventSubscription.__init__`
unfoldable pub create_subscription :
    {T E : Type 0} → T → Text → Option Text → ℕ → Result BusError (Subscription T E)
create_subscription event_type consumer_name partition_key queue_size =
    if ltb queue_size 1
    then raise invalid_queue_size
    else ok (record {
      event_type = event_type;
      consumer_name = consumer_name;
      partition_key = partition_key;
      queue_size = queue_size;
      queue = [];
      pending_events = 0;
      closed = false;
    })

module _ {T E : Type 0} where
  abbrev pub full : Subscription T E → Bool
  full s = leb s.queue_size s.pending_events

  -- `asyncio.Queue.put_nowait`, whose `maxsize` is `queue_size + 1`; `none` is `QueueFull`.
  abbrev pub put_nowait : Subscription T E → QueueItem E → Option (List (QueueItem E))
  put_nowait s item =
      if leb (s.queue_size + 1) (length s.queue) then none else some (s.queue ++ item ∷ [])

  unfoldable pub publish_nowait : Subscription T E → E → Result BusError (Subscription T E)
  publish_nowait s e =
      if s.closed
      then raise subscription_closed
      else if full s
      then raise (backpressure (s.consumer_name ∷ []))
      else elim (put_nowait s (event e)) [
        | none ↦ raise (backpressure (s.consumer_name ∷ []))
        | some q ↦ ok (record s { queue = q; pending_events = s.pending_events + 1 })
      ]

  -- `__anext__`, by what stands first in the queue.
  abbrev pub take_item : List (QueueItem E) → Subscription T E → Received E × Subscription T E
  take_item [] s = (waits, s)
  take_item (event e ∷ q) s =
      (received e, record s { queue = q; pending_events = s.pending_events - 1 })
  take_item (closed_mark ∷ q) s = (stopped, record s { queue = q })

  unfoldable pub receive : Subscription T E → Received E × Subscription T E
  receive s = take_item s.queue s

  -- `close`, without its call of the bus: that `put_nowait` raises after `_closed` is set is kept.
  unfoldable pub close_subscription :
      Subscription T E → Result BusError (Unit {0}) × Subscription T E
  close_subscription s = if s.closed then (ok tt, s) else elim (put_nowait s closed_mark) [
    | none ↦ (raise queue_full, record s { closed = true })
    | some q ↦ (ok tt, record s { queue = q; closed = true })
  ]
