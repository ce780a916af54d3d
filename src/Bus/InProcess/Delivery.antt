-- ===== src/Bus/InProcess/Delivery.antt =====
-- Publishing is all or nothing, and reaches the matching subscriptions and no other.
use pmrp.Common.{
  ◌+◌, ◌≡◌, ◌≢◌, refl, ap, ◌∙◌, ◌⊎◌, inl, inr, Bool, true, false, ◌&&◌, Option, none, some, List,
  [], ◌∷◌, ◌++◌, arith, length, keep_if, any_of, All, All-map, All-zip, All-not, All-keep_if,
  any_of-keep_if, any_of-map-keep_if, if◌then◌else◌, Bool-cases,
}
use pmrp.Common.Equality.{option_eq}
use pmrp.Common.Text.{Text, text_eq, text_eqb, text_eqb_iff}
use pmrp.Common.Dict.{Dict, get, put, IsUnique, get-put}
use pmrp.Common.Sort.{sorted-All, any_of-sorted}
use pmrp.Common.Result.{Result, ok, raise}
use pmrp.Bus.Subscription.{Subscription, event, BusError, bus_closed, full}
use pmrp.Bus.Subscription.Fifo.{IsValid, publish_nowait-accepts}
use pmrp.Bus.InProcess.{
  EventBus, Typing, values, names, is_match, ordered_subscriptions, matching_subscriptions, deliver,
  count_delivery, publish_to, publish, event_partition_key,
}

module _ {T E : Type 0} where
  -- The subscription after it has taken an event.
  abbrev pub accepted : E → Subscription T E → Subscription T E
  accepted e s = record s { queue = s.queue ++ event e ∷ []; pending_events = s.pending_events + 1 }

  -- A registered subscription is open, valid, and knows its name.
  abbrev pub IsRegistered : Text × Subscription T E → Type 0
  IsRegistered (k, s) = (s.consumer_name ≡ k) × (s.closed ≡ false) × IsValid false s

  pub record IsValidBus (b : EventBus T E) : Type 0 where
    pub unique : IsUnique b.subscriptions
    pub registered : All IsRegistered b.subscriptions

  -- Open, valid, the table's entry under its name, and with room for an event.
  abbrev pub CanTake : Dict Text (Subscription T E) → Subscription T E → Type 0
  CanTake d s =
      (get s.consumer_name d ≡ some s) × (s.closed ≡ false) × IsValid false s × (full s ≡ false)

  abbrev pub has_name : Text → Subscription T E → Bool
  has_name k s = text_eqb s.consumer_name k

  abbrev deliver_to : E → Bool → Option (Subscription T E) → Option (Subscription T E)
  deliver_to e b none = none
  deliver_to e b (some s) = if b then some (accepted e s) else some s

  -- The loop succeeds on subscriptions with room, and changes just their entries.
  deliver-get :
      (e : E) (ss : List (Subscription T E)) (d₀ d : Dict Text (Subscription T E))
      → All (CanTake d₀) ss
      → let (r, d') = deliver e ss d in
        (r ≡ ok tt)
        × ((k : Text)
            → get k d' ≡ (if any_of (has_name k) ss then deliver_to e true (get k d₀) else get k d))
  unfolding deliver
  deliver-get e [] d₀ d h = (refl, λ k. refl)
  deliver-get e (s ∷ ss) d₀ d h =
      let (found, o, v, room) = h.0 in
      let d₁ = put s.consumer_name (accepted e s) d in
      let (r, rest) = deliver-get e ss d₀ d₁ h.1 in
      rw (publish_nowait-accepts s e v o room, deliver)
        (
          r,
          λ k.
              rest k
              ∙ ground (
                arith,
                found,
                get-put s.consumer_name k (accepted e s) d,
                text_eqb_iff s.consumer_name k,
                ap (λ (n : Text). get n d₀),
              ),
        )

  -- Each registered subscription is the table's entry under its own name.
  registered-found :
      (d : Dict Text (Subscription T E))
      → IsUnique d
      → All IsRegistered d
      → All
          (λ s. (get s.consumer_name d ≡ some s) × (s.closed ≡ false) × IsValid false s)
          (values d)
  registered-found [] u r = tt
  registered-found ((k, s) ∷ d) u r = (
    (ground (arith, r, text_eqb_iff k s.consumer_name), r.0.1, r.0.2),
    All-map _ _
        (λ s' h. (
          ground (
            arith,
            u,
            h.0,
            text_eqb_iff k s'.consumer_name,
            ap (λ (n : Text). get n d) {x = k} {y = s'.consumer_name},
          ),
          h.1,
          h.2,
        ))
        (values d) (registered-found d u.1 r.1),
  )

  -- Whether an entry of the table passes a test.
  abbrev pub matched : (Subscription T E → Bool) → Option (Subscription T E) → Bool
  matched m none = false
  matched m (some s) = m s

  any_of-values :
      (m : Subscription T E → Bool) (k : Text) (d : Dict Text (Subscription T E))
      → IsUnique d
      → All IsRegistered d
      → any_of (λ s. m s && has_name k s) (values d) ≡ matched m (get k d)
  any_of-values m k [] u r = refl
  any_of-values m k ((j, s) ∷ d) u r = ground (
    arith,
    r.0.0,
    u.0,
    any_of-values m k d u.1 r.1,
    text_eqb_iff j k,
    text_eqb_iff s.consumer_name k,
    ap (λ (n : Text). get n d) {x = j} {y = k},
  )

  -- The entry that a delivery leaves, for one that passes the match or not.
  abbrev pub delivered_to :
      E → (Subscription T E → Bool) → Option (Subscription T E) → Option (Subscription T E)
  delivered_to e m none = none
  delivered_to e m (some s) = if m s then some (accepted e s) else some s

  -- Publishing stopped before the first delivery, since the bus is closed or a matching
  -- subscription is full.
  pub record Refused (full_match : Bool) (r : Result BusError (Unit {0})) (b b' : EventBus T E)
      : Type 0 where
    pub reason : (b.closed ≡ true) ⊎ (full_match ≡ true)
    pub raised : r ≢ ok tt
    pub same_subscriptions : b'.subscriptions ≡ b.subscriptions
    pub same_published : b'.published_events ≡ b.published_events
    pub same_delivered : b'.delivered_events ≡ b.delivered_events

  -- Publishing delivered to the subscriptions `ss`, which are those that pass `m`.
  pub record Delivered (e : E) (m : Subscription T E → Bool) (ss : List (Subscription T E))
      (full_match : Bool) (r : Result BusError (Unit {0})) (b b' : EventBus T E) : Type 0 where
    pub was_open : b.closed ≡ false
    pub had_room : full_match ≡ false
    pub returned : r ≡ ok tt
    pub entries : (k : Text) → get k b'.subscriptions ≡ delivered_to e m (get k b.subscriptions)
    pub published : b'.published_events ≡ b.published_events + 1
    pub delivered : b'.delivered_events ≡ b.delivered_events + length ss
    pub order : b'.last_delivery_order ≡ names ss

  module _ (ty : Typing T E) where
    any_of-ordered :
        (p : Subscription T E → Bool) (deterministic : Bool) (ss : List (Subscription T E))
        → any_of p (ordered_subscriptions ty deterministic ss) ≡ any_of p ss
    unfolding ordered_subscriptions
    any_of-ordered p true ss = any_of-sorted _ p ss
    any_of-ordered p false ss = refl

    ordered-All {κ} :
        (P : Subscription T E → Type κ) (deterministic : Bool) (ss : List (Subscription T E))
        → All P ss
        → All P (ordered_subscriptions ty deterministic ss)
    unfolding ordered_subscriptions
    ordered-All P true ss h = sorted-All _ P ss h
    ordered-All P false ss h = h

    -- The matching subscriptions are the entries that pass the match.
    pub matching-named :
        (e : E) (key : Option Text) (k : Text) (b : EventBus T E)
        → IsValidBus b
        → any_of (has_name k) (matching_subscriptions ty e key b)
          ≡ matched (is_match ty e key) (get k b.subscriptions)
    unfolding matching_subscriptions
    matching-named e key k b v =
        any_of-keep_if (is_match ty e key) (has_name k) _
        ∙ any_of-ordered _ b.deterministic (values b.subscriptions)
        ∙ any_of-values (is_match ty e key) k b.subscriptions v.unique v.registered

    pub matching-found :
        (e : E) (key : Option Text) (b : EventBus T E)
        → IsValidBus b
        → All
            (λ s.
              (get s.consumer_name b.subscriptions ≡ some s) × (s.closed ≡ false) × IsValid false s)
            (matching_subscriptions ty e key b)
    unfolding matching_subscriptions
    matching-found e key b v = All-keep_if _ _ _ (
        ordered-All _ b.deterministic (values b.subscriptions)
          (registered-found b.subscriptions v.unique v.registered))

    pub matching-CanTake :
        (e : E) (key : Option Text) (b : EventBus T E)
        → IsValidBus b
        → any_of full (matching_subscriptions ty e key b) ≡ false
        → All (CanTake b.subscriptions) (matching_subscriptions ty e key b)
    matching-CanTake e key b v room =
        let ss = matching_subscriptions ty e key b in
        All-map _ (CanTake b.subscriptions) (λ s h. (h.0.0, h.0.1, h.0.2, h.1)) ss
          (All-zip _ _ ss (matching-found e key b v) (All-not full ss room))

    deliver_to-matched :
        (e : E) (m : Subscription T E → Bool) (o : Option (Subscription T E))
        → (if matched m o then deliver_to e true o else o) ≡ delivered_to e m o
    deliver_to-matched e m none = ground arith
    deliver_to-matched e m (some s) = ground arith

    -- The delivery to matching subscriptions that all have room.
    deliver-Delivered :
        (e : E) (key : Option Text) (b : EventBus T E)
        → IsValidBus b
        → b.closed ≡ false
        → let ss = matching_subscriptions ty e key b in
          any_of full ss ≡ false
          → let (r, b') = publish_to e ss [] b in
            Delivered e (is_match ty e key) ss (any_of full ss) r b b'
    deliver-Delivered e key b v o room =
        let ss = matching_subscriptions ty e key b in
        let takes = matching-CanTake e key b v room in
        let (done, entries) = deliver-get e ss b.subscriptions b.subscriptions takes in
        counted e key ss b v o room (deliver e ss b.subscriptions) done λ k.
          entries k
          ∙ ap (λ t. if t then deliver_to e true (get k b.subscriptions) else get k b.subscriptions)
              (matching-named e key k b v)
          ∙ deliver_to-matched e (is_match ty e key) (get k b.subscriptions)
      where
        counted :
            (e : E) (key : Option Text) (ss : List (Subscription T E)) (b : EventBus T E)
            → IsValidBus b
            → b.closed ≡ false
            → any_of full ss ≡ false
            → (out : Result BusError (Unit {0}) × Dict Text (Subscription T E)) → out.0 ≡ ok tt
            → ((k : Text)
                → get k out.1 ≡ delivered_to e (is_match ty e key) (get k b.subscriptions))
            → let (r, b') = count_delivery ss out b in
              Delivered e (is_match ty e key) ss (any_of full ss) r b b'
        counted e key ss b v o room (raise x, d) bad entries = absurd (cc)
        counted e key ss b v o room (ok _, d) good entries = record {
          was_open = o;
          had_room = room;
          returned = refl;
          entries = entries;
          published = refl;
          delivered = refl;
          order = refl;
        }

    pub publish-open :
        (e : E) (partition_key : Option Text) (b : EventBus T E)
        → b.closed ≡ false
        → let ss =
            matching_subscriptions ty e (event_partition_key ty.market_id e partition_key) b in
          publish ty e partition_key b ≡ publish_to e ss (names (keep_if full ss)) b
    unfolding publish
    publish-open e partition_key b o =
        let ss = matching_subscriptions ty e (event_partition_key ty.market_id e partition_key) b in
        ap (λ t. if t then (raise bus_closed, b) else publish_to e ss (names (keep_if full ss)) b) o

    pub publish-closed :
        (e : E) (partition_key : Option Text) (b : EventBus T E)
        → b.closed ≡ true
        → publish ty e partition_key b ≡ (raise bus_closed, b)
    unfolding publish
    publish-closed e partition_key b o =
        let ss = matching_subscriptions ty e (event_partition_key ty.market_id e partition_key) b in
        ap (λ t. if t then (raise bus_closed, b) else publish_to e ss (names (keep_if full ss)) b) o

    -- On a valid bus publishing is all or nothing. It is refused just when the bus is closed or a
    -- matching subscription is full, and then it raises and no queue and no count of events
    -- changes. Otherwise it returns, each matching subscription has the event at its end, every
    -- other one is as it was, and the counts and the delivery order name the matching ones.
    pub publish_all_or_nothing :
        (e : E) (partition_key : Option Text) (b : EventBus T E)
        → IsValidBus b
        → let key = event_partition_key ty.market_id e partition_key in
          let ss = matching_subscriptions ty e key b in
          let (r, b') = publish ty e partition_key b in
          Refused (any_of full ss) r b b'
          ⊎ Delivered e (is_match ty e key) ss (any_of full ss) r b b'
    publish_all_or_nothing e partition_key b v =
        let key = event_partition_key ty.market_id e partition_key in
        let ss = matching_subscriptions ty e key b in
        elim (Bool-cases b.closed) [
          | inl shut ↦ rw (publish-closed e partition_key b shut) (
              inl (record {
                reason = inl shut;
                raised = λ h. cc;
                same_subscriptions = refl;
                same_published = refl;
                same_delivered = refl;
              }))
          | inr o ↦
              rw (publish-open e partition_key b o)
                (elim (any_of-map-keep_if (λ (s : Subscription T E). s.consumer_name) full ss) [
                  | inl (nobody, room) ↦ rw nobody (inr (deliver-Delivered e key b v o room))
                  | inr (n, ns, listed, crowded) ↦ rw listed (
                      inl (record {
                        reason = inr crowded;
                        raised = λ h. cc;
                        same_subscriptions = refl;
                        same_published = refl;
                        same_delivered = refl;
                      }))
                ])
        ]
