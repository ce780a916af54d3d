-- ===== src/Replay/Engine/Ordered.antt =====
-- What a replay has of the order of its events and of their times.
use pmrp.Common.{
  ℕ, suc, ◌≤◌, ◌≡◌, refl, sym, ap, ◌∙◌, true, false, some, List, [], ◌∷◌, map, arith, length, All,
  All-map, All-zip, subst, ltb,
}
use pmrp.Common.Text.{Text, text_eqb_iff}
use pmrp.Common.Result.{Result, ok, raise, bind_value}
use pmrp.Common.Sort.{sorted, IsSorted, sorted-IsSorted, sorted-All, lex_order, text_order}
use pmrp.Replay.Sorter.{
  ReplayError, ReplayEvent, Key, replay_event_ordering_key, keyed, key_order, sort_replay_events,
  exchange_sequence_key, source_partition_key,
}
use pmrp.Replay.Clock.{ReplayClock, advance_to, advance_replay_clock_to_event}

value_or : {A : Type 0} → A → Result ReplayError A → A
value_or a (ok x) = x
value_or a (raise x) = a

ok_inversion : {A : Type 0} (a b : A) (r : Result ReplayError A) → r ≡ ok a → r ≡ ok b → a ≡ b
unfolding value_or
ok_inversion a b r h k = ap (value_or a) (sym h ∙ k)

module _ {E : Type 0} where
  -- The time of the last event, or the time before.
  abbrev pub last_time : ℕ → List (ReplayEvent E) → ℕ
  last_time t [] = t
  last_time t (e ∷ es) = last_time e.occurred_at es

  abbrev pub Ascending : ℕ → List (ReplayEvent E) → Type 0
  Ascending t [] = Unit
  Ascending t (e ∷ es) = (t ≤ e.occurred_at) × Ascending e.occurred_at es

  pub last_time-within :
      (s e t : ℕ) (es : List (ReplayEvent E))
      → s ≤ t
      → t ≤ e
      → All (λ x. (s ≤ x.occurred_at) × (x.occurred_at ≤ e)) es
      → (s ≤ last_time t es) × (last_time t es ≤ e)
  last_time-within s e t [] h k a = (h, k)
  last_time-within s e t (x ∷ es) h k a = last_time-within s e x.occurred_at es a.0.0 a.0.1 a.1

  pub advances :
      (session : Text) (c : ReplayClock) (e : ReplayEvent E)
      → ((e.replay_session_id ≡ some session)
          × (c.starts_at ≤ e.occurred_at)
          × (e.occurred_at ≤ c.ends_at))
      → c.current_time ≤ e.occurred_at
      → advance_replay_clock_to_event c e session ≡ ok (record c { current_time = e.occurred_at })
  unfolding advance_replay_clock_to_event advance_to
  advances session c e (known, start, end) past =
      let a : ltb e.occurred_at c.current_time ≡ false = ground (arith, past) in
      let b : ltb e.occurred_at c.starts_at ≡ false = ground (arith, start) in
      let d : ltb c.ends_at e.occurred_at ≡ false = ground (arith, end) in
      rw (known, (text_eqb_iff session session).1 refl, a, b, d) refl

  abbrev pub Timed : ReplayEvent E × Key → Type 0
  Timed p = (rest : Key) × (p.1 ≡ (p.0.occurred_at ∷ []) ∷ rest)

  key_Timed : (e : ReplayEvent E) (k : Key) → replay_event_ordering_key e ≡ ok k → Timed (e, k)
  unfolding replay_event_ordering_key
  key_Timed e k h =
      let (g, _, rest) = bind_value (exchange_sequence_key e.exchange_sequence) _ h in
      let (s, _, last) = bind_value (source_partition_key e.source_partition) _ rest in
      ((g.0 ∷ []) ∷ (g.1 ∷ []) ∷ (e.received_at ∷ []) ∷ s ∷ e.event_id ∷ [], ground (arith, last))

  keyed_inversion :
      (P : ReplayEvent E → Type 0) (es : List (ReplayEvent E)) (ks : List (ReplayEvent E × Key))
      → keyed es ≡ ok ks
      → All P es
      → All (λ p. P p.0 × Timed p) ks × (length ks ≡ length es)
  unfolding keyed
  keyed_inversion P [] ks h a =
      subst (λ (x : List (ReplayEvent E × Key)). All (λ p. P p.0 × Timed p) x × (length x ≡ 0))
        (ok_inversion [] ks _ refl h) (tt, refl)
  keyed_inversion P (e ∷ es) ks h a =
      let (k, named, rest) = bind_value (replay_event_ordering_key e) _ h in
      let (ks', others, last) = bind_value (keyed es) _ rest in
      let (all, same) = keyed_inversion P es ks' others a.1 in
      subst
        (λ (x : List (ReplayEvent E × Key)).
          All (λ p. P p.0 × Timed p) x × (length x ≡ suc (length es)))
        (ok_inversion ((e, k) ∷ ks') ks _ refl last)
        (((a.0, key_Timed e k named), all), ap suc same)

  sorted_Ascending :
      (t : ℕ) (ks : List (ReplayEvent E × Key))
      → IsSorted key_order ks
      → All (λ p. (t ≤ p.0.occurred_at) × Timed p) ks
      → Ascending t (map (λ p. p.0) ks)
  sorted_Ascending t [] s a = tt
  sorted_Ascending t (p ∷ ks) s a = (
    a.0.0,
    sorted_Ascending p.0.occurred_at ks s.1 (
        All-map _ _ (λ q (l, (_, timed)). (later p q l a.0.1 timed, timed)) ks
          (All-zip _ _ ks s.0 a.1)),
  )
    where
      first_le :
          (a b : ℕ) (k l : Key)
          → (lex_order text_order).le ((a ∷ []) ∷ k) ((b ∷ []) ∷ l) ≡ true
          → a ≤ b
      first_le a b k l h = ground arith

      later :
          (p q : ReplayEvent E × Key)
          → key_order.le p q ≡ true
          → Timed p
          → Timed q
          → p.0.occurred_at ≤ q.0.occurred_at
      later p q l (k, e) (k', e') = first_le p.0.occurred_at q.0.occurred_at k k' (
          subst (λ (x : Key). (lex_order text_order).le x ((q.0.occurred_at ∷ []) ∷ k') ≡ true) e
            (subst (λ (x : Key). (lex_order text_order).le p.1 x ≡ true) e' l))

  -- What `sort_replay_events` returns keeps a property of every event, and ascends in time.
  pub sort_lem :
      (P : ReplayEvent E → Type 0) (t : ℕ) (es ordered : List (ReplayEvent E))
      → sort_replay_events es ≡ ok ordered
      → All (λ e. P e × (t ≤ e.occurred_at)) es
      → All P ordered × Ascending t ordered
  unfolding sort_replay_events
  sort_lem P t es ordered h a =
      let (ks, k, last) = bind_value (keyed es) _ h in
      let (all, _) = keyed_inversion (λ e. P e × (t ≤ e.occurred_at)) es ks k a in
      let sorted_all = sorted-All key_order _ ks all in
      let in_order = sorted-IsSorted key_order ks in
      subst (λ (x : List (ReplayEvent E)). All P x × Ascending t x)
        (ok_inversion (map (λ p. p.0) (sorted key_order ks)) ordered _ refl last)
        (
          All-first (sorted key_order ks)
              (All-map _ _ (λ p (x, _). x.0) (sorted key_order ks) sorted_all),
          sorted_Ascending t (sorted key_order ks) in_order
              (All-map _ _ (λ p (x, y). (x.1, y)) (sorted key_order ks) sorted_all),
        )
    where
      All-first :
          (ks : List (ReplayEvent E × Key)) → All (λ p. P p.0) ks → All P (map (λ p. p.0) ks)
      All-first [] a = tt
      All-first (k ∷ ks) (a, rest) = (a, All-first ks rest)
