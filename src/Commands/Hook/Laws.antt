-- ===== src/Commands/Hook/Laws.antt =====
-- The hook's methods, each by what it does to the table.
use pmrp.Common.{
  ℕ, ◌≤◌, ◌≡◌, ◌≢◌, refl, inl, inr, true, Option, none, some, arith, length, Option-cases,
}
use pmrp.Common.Text.{Text, text_eq, text_eqb_iff}
use pmrp.Common.Dict.{
  Dict, get, put, move_to_end, IsUnique, get-put, put-IsUnique, length-put, contains-get,
  get-move_to_end, move_to_end-IsUnique, length-move_to_end,
}
use pmrp.Commands.Types.{
  FingerprintPayload, CommandEnvelope, CommandFailure, claimed, duplicate_completed,
  duplicate_failed,
}
use pmrp.Commands.Hook.{
  Entry, Hook, is_in_progress, trim_to_capacity, claimed_entry, completed_entry, failed_entry,
  record_success, record_failure, claim, make_room, claim_or_answer, before_dispatch, store,
  existing_decision,
}
use pmrp.Commands.Hook.Table.{
  length-evict, get-evict_none, evict-IsUnique, get-evict_kept, get-trim_loop_kept,
  trim_loop-IsUnique, length-trim_loop-le,
}

-- The table holds each key once, and is within its capacity.
pub record IsValid {R : Type 0} (h : Hook R) : Type 0 where
  pub unique : IsUnique h.entries
  pub bounded : length h.entries ≤ h.max_entries

module _ {R : Type 0} where
  make_room-IsUnique : (n : ℕ) (d : Dict Text (Entry R)) → IsUnique d → IsUnique (make_room n d)
  unfolding make_room
  make_room-IsUnique n d u = ground (arith, evict-IsUnique none d u)

  get-make_room-none :
      (n : ℕ) (key : Text) (d : Dict Text (Entry R))
      → get key d ≡ none
      → get key (make_room n d) ≡ none
  unfolding make_room
  get-make_room-none n key d h = ground (arith, get-evict_none none key d h)

  get-make_room-kept :
      (n : ℕ) (key : Text) (x : Entry R) (d : Dict Text (Entry R))
      → get key d ≡ some x
      → is_in_progress x.status ≡ true
      → get key (make_room n d) ≡ some x
  unfolding make_room
  get-make_room-kept n key x d h k = ground (arith, get-evict_kept none key x d h k)

  length-make_room-le : (n : ℕ) (d : Dict Text (Entry R)) → length (make_room n d) ≤ length d
  unfolding make_room
  length-make_room-le n d = ground (arith, length-evict none d)

  claim-IsValid :
      (n : ℕ) (key f : Text) (d : Dict Text (Entry R))
      → IsUnique d
      → length d ≤ n
      → let (decision, d') = claim n key f d in IsUnique d' × (length d' ≤ n)
  unfolding claim
  claim-IsValid n key f d u b =
      ground (arith, put-IsUnique key (claimed_entry f) d u, length-put key (claimed_entry f) d)

  -- A claim is granted for a key that is absent, and leaves it in progress.
  pub claim_or_answer-claimed :
      (n : ℕ) (key f : Text) (d : Dict Text (Entry R))
      → (claim_or_answer n key f d).0.status ≡ claimed
      → (get key d ≡ none) × (get key (claim_or_answer n key f d).1 ≡ some (claimed_entry f))
  unfolding claim_or_answer existing_decision claim
  claim_or_answer-claimed n key f d h =
      ground (arith, get-put key key (claimed_entry f) (make_room n d), text_eqb_iff key key)

  pub claim_or_answer-IsValid :
      (n : ℕ) (key f : Text) (d : Dict Text (Entry R))
      → IsUnique d
      → length d ≤ n
      → let d' = (claim_or_answer n key f d).1 in IsUnique d' × (length d' ≤ n)
  unfolding claim_or_answer
  claim_or_answer-IsValid n key f d u b = elim (Option-cases (get key d)) [
    | inl e ↦
        rw (e, claim_or_answer)
          (claim-IsValid n key f (make_room n d) (make_room-IsUnique n d u)
            (omega (arith, length-make_room-le n d)))
    | inr (v, e) ↦
        rw (e, claim_or_answer)
          (move_to_end-IsUnique key d u, omega (arith, length-move_to_end key d))
  ]

  -- Work in progress under another key is not disturbed.
  pub claim_or_answer-in_progress :
      (n : ℕ) (key f other : Text) (x : Entry R) (d : Dict Text (Entry R))
      → IsUnique d
      → get other d ≡ some x
      → is_in_progress x.status ≡ true
      → get other (claim_or_answer n key f d).1 ≡ some x
  unfolding claim_or_answer claim
  claim_or_answer-in_progress n key f other x d u h k = elim (Option-cases (get key d)) [
    | inl e ↦
        rw (e, claim_or_answer)
          (ground (
            arith,
            get-make_room-kept n other x d h k,
            get-put key other (claimed_entry f) (make_room n d),
            text_eqb_iff key other,
          ))
    | inr (v, e) ↦ rw (e, claim_or_answer) (ground (arith, get-move_to_end key other d u))
  ]

  -- What a recorder stores can be read back at once.
  pub get-store :
      (key : Text) (x : Entry R) (h : Hook R)
      → IsUnique h.entries
      → get key (store key x h).entries ≡ some x
  unfolding trim_to_capacity
  get-store key x h u =
      let d = put key x h.entries in
      get-trim_loop_kept _ h.max_entries key key x (move_to_end key d)
        (ground (
          arith,
          get-move_to_end key key d (put-IsUnique key x h.entries u),
          get-put key key x h.entries,
          text_eqb_iff key key,
        ))
        (ground (arith, text_eqb_iff key key))

  pub get-store_in_progress :
      (key other : Text) (x y : Entry R) (h : Hook R)
      → IsUnique h.entries
      → key ≢ other
      → get other h.entries ≡ some y
      → is_in_progress y.status ≡ true
      → get other (store key x h).entries ≡ some y
  unfolding trim_to_capacity
  get-store_in_progress key other x y h u ne e k =
      let d = put key x h.entries in
      get-trim_loop_kept _ h.max_entries key other y (move_to_end key d)
        (ground (
          arith,
          get-move_to_end key other d (put-IsUnique key x h.entries u),
          get-put key other x h.entries,
          text_eqb_iff key other,
        ))
        (ground arith)

  -- A recorder keeps the table valid when its key is in the table, as it is after a claim.
  pub store-IsValid :
      (key : Text) (x : Entry R) (h : Hook R)
      → IsValid h
      → get key h.entries ≢ none
      → IsValid (store key x h)
  unfolding trim_to_capacity
  store-IsValid key x h v known =
      let d = put key x h.entries in
      let unique = put-IsUnique key x h.entries v.unique in
      record {
        unique =
            trim_loop-IsUnique _ h.max_entries key (move_to_end key d)
              (move_to_end-IsUnique key d unique);
        bounded = ground (
          arith,
          length-trim_loop-le (length (move_to_end key d)) h.max_entries key (move_to_end key d),
          length-move_to_end key d,
          length-put key x h.entries,
          contains-get key h.entries,
        );
      }

module _ {A R : Type 0} (digest : FingerprintPayload A → Text) where
  -- A key with a stored outcome answers with that outcome, if the request is the same.
  pub before_dispatch-completed :
      (c : CommandEnvelope A) (r : Option R) (h : Hook R)
      → get c.idempotency_key h.entries ≡ some (completed_entry (digest c.payload) r)
      → (before_dispatch digest c h).0
        ≡ record { status = duplicate_completed; result = r; failure = none; reason = none }
  unfolding before_dispatch claim_or_answer existing_decision
  before_dispatch-completed c r h e =
      rw (e, claim_or_answer) (rw ((text_eqb_iff (digest c.payload) (digest c.payload)).1 refl))

  pub before_dispatch-failed :
      (c : CommandEnvelope A) (x : CommandFailure) (h : Hook R)
      → get c.idempotency_key h.entries ≡ some (failed_entry (digest c.payload) x)
      → (before_dispatch digest c h).0
        ≡ record { status = duplicate_failed; result = none; failure = some x; reason = none }
  unfolding before_dispatch claim_or_answer existing_decision
  before_dispatch-failed c x h e =
      rw (e, claim_or_answer) (rw ((text_eqb_iff (digest c.payload) (digest c.payload)).1 refl))

  pub before_dispatch-IsValid :
      (c : CommandEnvelope A) (h : Hook R) → IsValid h → IsValid (before_dispatch digest c h).1
  unfolding before_dispatch
  before_dispatch-IsValid c h v =
      let (u, b) =
        claim_or_answer-IsValid h.max_entries c.idempotency_key (digest c.payload) h.entries
          v.unique v.bounded in
      record { unique = u; bounded = b }

  pub before_dispatch-claimed :
      (c : CommandEnvelope A) (h : Hook R)
      → (before_dispatch digest c h).0.status ≡ claimed
      → (get c.idempotency_key h.entries ≡ none)
        × (get c.idempotency_key (before_dispatch digest c h).1.entries
            ≡ some (claimed_entry (digest c.payload)))
  unfolding before_dispatch
  before_dispatch-claimed c h =
      claim_or_answer-claimed h.max_entries c.idempotency_key (digest c.payload) h.entries

  pub before_dispatch-in_progress :
      (c : CommandEnvelope A) (other : Text) (x : Entry R) (h : Hook R)
      → IsUnique h.entries
      → get other h.entries ≡ some x
      → is_in_progress x.status ≡ true
      → get other (before_dispatch digest c h).1.entries ≡ some x
  unfolding before_dispatch
  before_dispatch-in_progress c other x h =
      claim_or_answer-in_progress h.max_entries c.idempotency_key (digest c.payload) other x
        h.entries

  pub get-record_success :
      (c : CommandEnvelope A) (r : Option R) (h : Hook R)
      → IsUnique h.entries
      → get c.idempotency_key (record_success digest c r h).entries
        ≡ some (completed_entry (digest c.payload) r)
  unfolding record_success
  get-record_success c r h u =
      get-store c.idempotency_key (completed_entry (digest c.payload) r) h u

  pub get-record_failure :
      (c : CommandEnvelope A) (x : CommandFailure) (h : Hook R)
      → IsUnique h.entries
      → get c.idempotency_key (record_failure digest c x h).entries
        ≡ some (failed_entry (digest c.payload) x)
  unfolding record_failure
  get-record_failure c x h u = get-store c.idempotency_key (failed_entry (digest c.payload) x) h u

  pub record_success_lem :
      (c : CommandEnvelope A) (r : Option R) (h : Hook R)
      → record_success digest c r h
        ≡ store c.idempotency_key (completed_entry (digest c.payload) r) h
  unfolding record_success
  record_success_lem c r h = refl

  pub record_failure_lem :
      (c : CommandEnvelope A) (x : CommandFailure) (h : Hook R)
      → record_failure digest c x h ≡ store c.idempotency_key (failed_entry (digest c.payload) x) h
  unfolding record_failure
  record_failure_lem c x h = refl
