-- ===== src/Bus/Subscription/Fifo.antt =====
-- The subscription as a queue: what is received is what was published, in order.
use pmrp.Common.{
  ℕ, ◌+◌, ◌≤◌, ◌≡◌, refl, ◌∙◌, ap, Bool, true, false, subst, inl, inr, Bool-cases, Option, List, [],
  ◌∷◌, ◌++◌, arith, leb, length, length-append,
}
use mathlib.Core.List.{append-nil, append_assoc}
use pmrp.Common.Result.{Result, ok, raise}
use pmrp.Common.Text.{Text}
use pmrp.Bus.Subscription.{
  QueueItem, event, closed_mark, Subscription, BusError, subscription_closed, backpressure,
  Received, waits, received, stopped, create_subscription, publish_nowait, take_item, receive,
  close_subscription,
}

-- The events in a queue, and whether the closing mark stands at its end and nowhere else.
abbrev pub events : {E : Type 0} → List (QueueItem E) → List E
events [] = []
events (event e ∷ q) = e ∷ events q
events (closed_mark ∷ q) = events q

abbrev pub EndsBy : {E : Type 0} → Bool → List (QueueItem E) → Type 0
EndsBy marked [] = marked ≡ false
EndsBy marked (event e ∷ q) = EndsBy marked q
EndsBy marked (closed_mark ∷ q) = (marked ≡ true) × (q ≡ [])

-- `marked` says whether the closing mark is still in the queue.
pub record IsValid {T E : Type 0} (marked : Bool) (s : Subscription T E) : Type 0 where
  pub positive : 1 ≤ s.queue_size
  pub counted : s.pending_events ≡ length (events s.queue)
  pub bounded : s.pending_events ≤ s.queue_size
  pub mark_at_end : EndsBy marked s.queue
  pub open_unmarked : s.closed ≡ false → marked ≡ false

events-append : {E : Type 0} (q r : List (QueueItem E)) → events (q ++ r) ≡ events q ++ events r
events-append [] r = refl
events-append (event e ∷ q) r = ap (◌∷◌ e) (events-append q r)
events-append (closed_mark ∷ q) r = events-append q r

length-queue : {E : Type 0} (q : List (QueueItem E)) → EndsBy false q → length q ≡ length (events q)
length-queue [] h = refl
length-queue (event e ∷ q) h = omega (arith, length-queue q h)
length-queue (closed_mark ∷ q) h = cc

EndsBy-event :
    {E : Type 0} (q : List (QueueItem E)) (e : E)
    → EndsBy false q
    → EndsBy false (q ++ event e ∷ [])
EndsBy-event [] e h = h
EndsBy-event (event d ∷ q) e h = EndsBy-event q e h
EndsBy-event (closed_mark ∷ q) e h = cc

EndsBy-mark :
    {E : Type 0} (q : List (QueueItem E)) → EndsBy false q → EndsBy true (q ++ closed_mark ∷ [])
EndsBy-mark [] h = (refl, refl)
EndsBy-mark (event d ∷ q) h = EndsBy-mark q h
EndsBy-mark (closed_mark ∷ q) h = cc

module _ {T E : Type 0} where
  -- On an open subscription that is not full, publishing succeeds and appends the event.
  pub publish_nowait-accepts :
      (s : Subscription T E) (e : E)
      → IsValid false s
      → s.closed ≡ false
      → leb s.queue_size s.pending_events ≡ false
      → publish_nowait s e
        ≡ ok (record s { queue = s.queue ++ event e ∷ []; pending_events = s.pending_events + 1 })
  unfolding publish_nowait
  publish_nowait-accepts s e v o room = ground (arith, length-queue s.queue v.mark_at_end)

  pub publish_nowait-closed :
      (s : Subscription T E) (e : E)
      → s.closed ≡ true
      → publish_nowait s e ≡ raise subscription_closed
  unfolding publish_nowait
  publish_nowait-closed s e h = rw h

  pub publish_nowait-full :
      (s : Subscription T E) (e : E)
      → s.closed ≡ false
      → leb s.queue_size s.pending_events ≡ true
      → publish_nowait s e ≡ raise (backpressure (s.consumer_name ∷ []))
  unfolding publish_nowait
  publish_nowait-full s e h k = rw (h, k)

  close_subscription-closed :
      (s : Subscription T E) → s.closed ≡ true → close_subscription s ≡ (ok tt, s)
  unfolding close_subscription
  close_subscription-closed s h = rw h

  -- The closing mark always finds room, since the queue holds one item more than its size.
  pub close_subscription-open :
      (s : Subscription T E)
      → IsValid false s
      → s.closed ≡ false
      → close_subscription s
        ≡ (ok tt, record s { queue = s.queue ++ closed_mark ∷ []; closed = true })
  unfolding close_subscription
  close_subscription-open s v o = ground (arith, length-queue s.queue v.mark_at_end)

  closed-IsValid :
      (s : Subscription T E)
      → IsValid false s
      → IsValid true (record s { queue = s.queue ++ closed_mark ∷ []; closed = true })
  closed-IsValid s v = record {
    positive = v.positive;
    counted = rw (events-append s.queue (closed_mark ∷ []), append-nil (events s.queue)) v.counted;
    bounded = v.bounded;
    mark_at_end = EndsBy-mark s.queue v.mark_at_end;
    open_unmarked = λ o. cc;
  }

  pub create_subscription-IsValid :
      (event_type : T) (name : Text) (key : Option Text) (size : ℕ) (s : Subscription T E)
      → create_subscription event_type name key size ≡ ok s
      → IsValid false s × (s.queue ≡ [])
  unfolding create_subscription
  create_subscription-IsValid event_type name key size s h = ground arith

  pub create_subscription-registered :
      (event_type : T) (name : Text) (key : Option Text) (size : ℕ) (s : Subscription T E)
      → create_subscription event_type name key size ≡ ok s
      → (s.closed ≡ false) × IsValid false s
  unfolding create_subscription
  create_subscription-registered event_type name key size s h = ground arith

  pub accepted-IsValid :
      (s : Subscription T E) (e : E)
      → IsValid false s
      → leb s.queue_size s.pending_events ≡ false
      → IsValid false
          (record s { queue = s.queue ++ event e ∷ []; pending_events = s.pending_events + 1 })
  accepted-IsValid s e v room = record {
    positive = v.positive;
    counted = omega (
      arith,
      v.counted,
      ap length (events-append s.queue (event e ∷ [])),
      length-append (events s.queue) (e ∷ []),
    );
    bounded = ground arith;
    mark_at_end = EndsBy-event s.queue e v.mark_at_end;
    open_unmarked = λ o. refl;
  }

-- The calls on one subscription, by the bus and by its consumer.
pub data Call (E : Type 0) : Type 0 where
  publishes : E → Call E
  receives : Call E
  closes : Call E

-- A subscription with what it has accepted and what its consumer has received, oldest first.
pub record Trace (T E : Type 0) : Type 0 where
  pub subscription : Subscription T E
  pub accepted : List E
  pub delivered : List E

module _ {T E : Type 0} where
  abbrev pub after_publish : E → Result BusError (Subscription T E) → Trace T E → Trace T E
  after_publish e (ok s) t = record t { subscription = s; accepted = t.accepted ++ e ∷ [] }
  after_publish e (raise x) t = t

  abbrev pub after_receive : Received E × Subscription T E → Trace T E → Trace T E
  after_receive (waits, s) t = record t { subscription = s }
  after_receive (stopped, s) t = record t { subscription = s }
  after_receive (received e, s) t = record t { subscription = s; delivered = t.delivered ++ e ∷ [] }

  pub step : Call E → Trace T E → Trace T E
  step (publishes e) t = after_publish e (publish_nowait t.subscription e) t
  step receives t = after_receive (receive t.subscription) t
  step closes t = record t { subscription = (close_subscription t.subscription).1 }

  pub run : List (Call E) → Trace T E → Trace T E
  run [] t = t
  run (c ∷ cs) t = run cs (step c t)

  -- The invariant of a trace.
  pub record Keeps (t : Trace T E) : Type 0 where
    pub marked : Bool
    pub valid : IsValid marked t.subscription
    pub fifo : t.delivered ++ events t.subscription.queue ≡ t.accepted

  abbrev IsOpen : Subscription T E → Type 0
  IsOpen s = s.closed ≡ false

  step_publishes-Keeps : (e : E) (t : Trace T E) → Keeps t → Keeps (step (publishes e) t)
  unfolding step
  step_publishes-Keeps e t k =
      let s = t.subscription in
      elim (Bool-cases s.closed) [
        | inl shut ↦ rw (publish_nowait-closed s e shut) k
        | inr o ↦ elim (Bool-cases (leb s.queue_size s.pending_events)) [
          | inl f ↦ rw (publish_nowait-full s e o f) k
          | inr room ↦
              let v : IsValid false s =
                subst (λ b. IsValid b s) (k.valid.open_unmarked o) k.valid in
              rw (publish_nowait-accepts s e v o room) (record {
                marked = false;
                valid = accepted-IsValid s e v room;
                fifo = rw (events-append s.queue (event e ∷ []), ← append_assoc, k.fifo);
              })
        ]
      ]

  receive-Keeps :
      (q : List (QueueItem E)) (t : Trace T E)
      → t.subscription.queue ≡ q
      → Keeps t
      → Keeps (after_receive (take_item q t.subscription) t)
  receive-Keeps [] t e k = k
  receive-Keeps (event x ∷ q) t e k = record {
    marked = k.marked;
    valid = record {
      positive = k.valid.positive;
      counted =
          omega (arith, k.valid.counted, ap (λ (r : List (QueueItem E)). length (events r)) e);
      bounded = omega arith;
      mark_at_end = subst (EndsBy k.marked) e k.valid.mark_at_end;
      open_unmarked = k.valid.open_unmarked;
    };
    fifo = append_assoc t.delivered (x ∷ []) (events q) ∙ (rw e at k.fifo);
  }
  receive-Keeps (closed_mark ∷ q) t e k =
      let m = subst (EndsBy k.marked) e k.valid.mark_at_end in
      record {
        marked = false;
        valid = record {
          positive = k.valid.positive;
          counted =
              omega (arith, k.valid.counted, ap (λ (r : List (QueueItem E)). length (events r)) e);
          bounded = k.valid.bounded;
          mark_at_end = rw m.1 refl;
          open_unmarked = λ o. refl;
        };
        fifo = rw e at k.fifo;
      }

  close-Keeps : (t : Trace T E) → Keeps t → Keeps (step closes t)
  unfolding step
  close-Keeps t k =
      let s = t.subscription in
      elim (Bool-cases s.closed) [
        | inl shut ↦ rw (close_subscription-closed s shut) k
        | inr o ↦
            let v : IsValid false s = subst (λ b. IsValid b s) (k.valid.open_unmarked o) k.valid in
            rw (close_subscription-open s v o) (record {
              marked = true;
              valid = closed-IsValid s v;
              fifo =
                  rw (events-append s.queue (closed_mark ∷ []), append-nil (events s.queue)) k.fifo;
            })
      ]

  step-Keeps : (c : Call E) (t : Trace T E) → Keeps t → Keeps (step c t)
  unfolding step receive
  step-Keeps (publishes e) t k = step_publishes-Keeps e t k
  step-Keeps receives t k = receive-Keeps t.subscription.queue t refl k
  step-Keeps closes t k = close-Keeps t k

  run-Keeps : (cs : List (Call E)) (t : Trace T E) → Keeps t → Keeps (run cs t)
  unfolding run
  run-Keeps [] t k = k
  run-Keeps (c ∷ cs) t k = run-Keeps cs (step c t) (step-Keeps c t k)

  -- A new subscription, whatever calls follow, delivers the accepted events in order and once
  -- each: those received, then those still queued, are those accepted. The reported depth is the
  -- number still queued and never passes the queue size.
  pub run_fifo :
      (event_type : T) (name : Text) (key : Option Text) (size : ℕ) (s : Subscription T E)
      (cs : List (Call E))
      → create_subscription event_type name key size ≡ ok s
      → let t = run cs (record { subscription = s; accepted = []; delivered = [] }) in
        (t.delivered ++ events t.subscription.queue ≡ t.accepted)
        × (t.subscription.pending_events ≡ length (events t.subscription.queue))
        × (t.subscription.pending_events ≤ t.subscription.queue_size)
  run_fifo event_type name key size s cs made =
      let (v, empty_queue) = create_subscription-IsValid event_type name key size s made in
      let k =
        run-Keeps cs (record { subscription = s; accepted = []; delivered = [] })
          (record { marked = false; valid = v; fifo = ap events empty_queue }) in
      (k.fifo, k.valid.counted, k.valid.bounded)
