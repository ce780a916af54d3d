-- ===== src/Replay/Engine/Completion.antt =====
-- A replay of events inside the window completes.
use pmrp.Common.Fields.{is_bad_length}
use pmrp.Common.{
  ℕ, suc, ◌+◌, ◌≤◌, ◌≡◌, refl, ap, ◌∙◌, Bool, true, false, some, List, [], ◌∷◌, arith, length, All,
  All-map, ltb,
}
use mathlib.Core.List.{foldl}
use pmrp.Common.Text.{Text, text_eqb_iff}
use pmrp.Common.Result.{Result, ok, raise, ◌>>=◌, ◌>>◌}
use pmrp.Replay.Sorter.{ReplayError, publish_failed, ReplayEvent, sort_replay_events}
use pmrp.Replay.Clock.{ReplayClock, advance_replay_clock_to_event}
use pmrp.Replay.Engine.{
  ReplayManifest, ReplaySession, make_session, validate_engine_inputs, replay_events, session_of,
  run,
}
use pmrp.Replay.Engine.Ordered.{last_time, last_time-within, Ascending, advances, sort_lem}

-- The clock's window is the manifest's.
window :
    (m : ReplayManifest) (c : ReplayClock)
    → validate_engine_inputs m c ≡ ok tt
    → (c.starts_at ≡ m.starts_at) × (c.ends_at ≡ m.ends_at)
unfolding validate_engine_inputs
window m c h = (ground (arith, h), ground (arith, h))

module _ {E W : Type 0} (publish : ReplayEvent E → W → Bool × W) where
  abbrev pub bus_after : W → List (ReplayEvent E) → W
  bus_after = foldl (λ w e. (publish e w).1)

  replay_events_lem :
      (session : Text) (es : List (ReplayEvent E)) (n : ℕ) (c : ReplayClock) (w : W)
      → All
          (λ e.
            (e.replay_session_id ≡ some session)
            × (c.starts_at ≤ e.occurred_at)
            × (e.occurred_at ≤ c.ends_at))
          es
      → Ascending c.current_time es
      → ((e : ReplayEvent E) (w : W) → (publish e w).0 ≡ true)
      → replay_events publish session es n c w ≡ (
        ok (n + length es),
        (record c { current_time = last_time c.current_time es }, bus_after w es),
      )
  unfolding replay_events
  replay_events_lem session [] n c w a s p = ap (λ (m : ℕ). (ok m, (c, w))) (ground arith)
  replay_events_lem session (e ∷ es) n c w a s p =
      continued (advance_replay_clock_to_event c e session) (advances session c e a.0 s.0)
        (publish e w).0 (p e w)
      ∙ (replay_events_lem session es (suc n) (record c { current_time = e.occurred_at })
            (publish e w).1 a.1 s.1 p
          ∙ ap
              (λ (m : ℕ). (
                ok m,
                (
                  record c { current_time = last_time e.occurred_at es },
                  bus_after (publish e w).1 es,
                ),
              ))
              (ground arith))
    where
      continued :
          (r : Result ReplayError ReplayClock)
          → r ≡ ok (record c { current_time = e.occurred_at })
          → (b : Bool) → b ≡ true
          → (elim r [
            | raise x ↦ (raise x, (c, w))
            | ok c' ↦ elim b [
              | true ↦ replay_events publish session es (suc n) c' (publish e w).1
              | false ↦ (raise publish_failed, (c', (publish e w).1))
            ]
          ])
            ≡ replay_events publish session es
                (suc n)
                (record c { current_time = e.occurred_at })
                (publish e w).1
      continued r h b k = rw (h, k) refl

  -- The constructor accepts the session of a replay that ended in its window.
  session_made :
      (m : ReplayManifest) (c : ReplayClock) (sum : Text) (n t : ℕ)
      → validate_engine_inputs m c ≡ ok tt
      → m.created_at ≤ m.starts_at
      → (c.starts_at ≤ t) × (t ≤ c.ends_at)
      → is_bad_length 256 sum ≡ false
      → make_session m (session_of publish m sum n (record c { current_time = t }))
        ≡ ok (session_of publish m sum n (record c { current_time = t }))
  unfolding make_session
  session_made m c sum n t valid created (from_start, to_end) fits =
      let (s, e) = window m c valid in
      let a : ltb t m.starts_at ≡ false = ground (arith, s, from_start) in
      let b : ltb m.ends_at t ≡ false = ground (arith, e, to_end) in
      let k : ltb m.starts_at m.created_at ≡ false = ground (arith, created) in
      let d : ltb t m.created_at ≡ false = ground (arith, s, created, from_start) in
      rw (fits, (text_eqb_iff m.replay_session_id m.replay_session_id).1 refl, a, b, k, d) refl

  -- If the policy and the window are the manifest's, the events can be ordered, each is of the
  -- session, in the window and not before the clock, and the bus accepts every publication, the
  -- replay completes: it publishes the ordered events one after the other, counts them all, and
  -- leaves the clock at the last one's time. The session's constructor accepts the result when the
  -- manifest was created no later than its window starts, the clock stands in the window, and the
  -- checksum has from 1 to 256 characters.
  pub run_completes :
      (checksum : ReplayManifest → List (ReplayEvent E) → Text) (m : ReplayManifest)
      (events ordered : List (ReplayEvent E)) (c : ReplayClock) (w : W)
      → validate_engine_inputs m c ≡ ok tt
      → sort_replay_events events ≡ ok ordered
      → All
          (λ e.
            ((e.replay_session_id ≡ some m.replay_session_id)
              × (c.starts_at ≤ e.occurred_at)
              × (e.occurred_at ≤ c.ends_at))
            × (c.current_time ≤ e.occurred_at))
          events
      → ((e : ReplayEvent E) (w : W) → (publish e w).0 ≡ true)
      → m.created_at ≤ m.starts_at
      → c.starts_at ≤ c.current_time
      → c.current_time ≤ c.ends_at
      → is_bad_length 256 (checksum m ordered) ≡ false
      → run publish checksum m events c w ≡ (
        ok (
            session_of publish m
              (checksum m ordered)
              (length ordered)
              (record c { current_time = last_time c.current_time ordered })),
        (record c { current_time = last_time c.current_time ordered }, bus_after w ordered),
      )
  unfolding run
  run_completes checksum m events ordered c w valid sort all p created from_start to_end fits =
      let (replayable, ascending) = sort_lem _ c.current_time events ordered sort all in
      let validated : (validate_engine_inputs m c >> sort_replay_events events) ≡ ok ordered =
        ap (λ (r : Result ReplayError (Unit {0})). r >> sort_replay_events events) valid ∙ sort in
      finished (validate_engine_inputs m c >> sort_replay_events events) validated
      ∙ ap ending (
          replay_events_lem m.replay_session_id ordered 0 c w replayable ascending p
          ∙ ap
              (λ (n : ℕ). (
                ok n,
                (record c { current_time = last_time c.current_time ordered }, bus_after w ordered),
              ))
              (ground arith))
      ∙ ap
          (λ (r : Result ReplayError ReplaySession). (
            r,
            (record c { current_time = last_time c.current_time ordered }, bus_after w ordered),
          ))
          (session_made m c (checksum m ordered) (length ordered) (last_time c.current_time ordered)
            valid created
            (last_time-within c.starts_at c.ends_at c.current_time ordered from_start to_end
              (All-map _ _ (λ e x. (x.1, x.2)) ordered replayable))
            fits)
    where
      ending :
          Result ReplayError ℕ × (ReplayClock × W)
          → Result ReplayError ReplaySession × (ReplayClock × W)
      ending z = (
        z.0 >>= λ n. make_session m (session_of publish m (checksum m ordered) n z.1.0),
        (z.1.0, z.1.1),
      )

      finished :
          (r : Result ReplayError (List (ReplayEvent E)))
          → r ≡ ok ordered
          → (elim r [
            | raise x ↦ (raise x, (c, w))
            | ok es ↦
                let z = replay_events publish m.replay_session_id es 0 c w in
                (
                  z.0 >>= λ n. make_session m (session_of publish m (checksum m es) n z.1.0),
                  (z.1.0, z.1.1),
                )
          ])
            ≡ ending (replay_events publish m.replay_session_id ordered 0 c w)
      finished r h = rw h refl
