-- ===== src/Replay/Engine.antt =====
-- The replay engine (replay/engine.py). The bus is a parameter: whether a publication returns, and
-- the bus's next state. The checksum of the result is a parameter too.
pub mod Ordered
pub mod Completion
use pmrp.Common.{ℕ, suc, Bool, true, false, not, ◌||◌, List, [], ◌∷◌, ltb, nat_eqb}
use pmrp.Common.Equality.{◌==◌}
use pmrp.Common.Fields.{is_bad_length}
use pmrp.Common.Text.{Text, str, text_eq}
use pmrp.Common.Result.{Result, ok, raise, ◌>>=◌, ◌>>◌, raise_if}
use pmrp.Replay.Sorter.{
  ReplayError, policy_unsupported, window_mismatch, publish_failed, session_invalid, ReplayEvent,
  sort_replay_events,
}
use pmrp.Replay.Clock.{ReplayClock, advance_replay_clock_to_event}

-- What the engine reads of a `ReplayManifest`.
pub record ReplayManifest : Type 0 where
  pub replay_session_id : Text
  pub starts_at : ℕ
  pub ends_at : ℕ
  pub created_at : ℕ
  pub event_ordering_policy_version : Text

-- A completed `ReplaySession`, which rejects no event, with its manifest's identifier.
pub record ReplaySession : Type 0 where
  pub replay_session_id : Text
  pub current_time : ℕ
  pub processed_events : ℕ
  pub started_at : ℕ
  pub completed_at : ℕ
  pub result_checksum : Text

-- `ReplaySession.validate_session_lifecycle` of a completed session (schemas/replay.py), after the
-- bounds of its checksum; its times and its checksum are given, and it has no failure message.
unfoldable pub make_session : ReplayManifest → ReplaySession → Result ReplayError ReplaySession
make_session m s = do
  raise_if (is_bad_length 256 s.result_checksum) session_invalid
  raise_if (not (s.replay_session_id == m.replay_session_id)) session_invalid
  raise_if (ltb s.current_time m.starts_at || ltb m.ends_at s.current_time) session_invalid
  raise_if (ltb s.started_at m.created_at) session_invalid
  raise_if (ltb s.completed_at m.created_at) session_invalid
  raise_if (ltb s.completed_at s.started_at) session_invalid
  ok s

abbrev pub ordering_policy_version : Text
ordering_policy_version = str "occurred-sequence-received-v1"

-- `_validate_engine_inputs`
unfoldable pub validate_engine_inputs : ReplayManifest → ReplayClock → Result ReplayError (Unit {0})
validate_engine_inputs m c = do
  raise_if (not (m.event_ordering_policy_version == ordering_policy_version)) policy_unsupported
  raise_if (not (nat_eqb c.starts_at m.starts_at) || not (nat_eqb c.ends_at m.ends_at))
      window_mismatch

module _ {E W : Type 0} (publish : ReplayEvent E → W → Bool × W) where
  -- The loop of `run`: what it ends with, the clock, the bus, and the events processed.
  unfoldable pub replay_events :
      Text → List (ReplayEvent E) → ℕ → ReplayClock → W → Result ReplayError ℕ × (ReplayClock × W)
  replay_events session [] processed c w = (ok processed, (c, w))
  replay_events session (e ∷ es) processed c w = elim (advance_replay_clock_to_event c e session) [
    | raise x ↦ (raise x, (c, w))
    | ok c' ↦
        let (published, w') = publish e w in
        let rest = replay_events session es (suc processed) c' w' in
        elim published [ true ↦ rest | false ↦ (raise publish_failed, (c', w')) ]
  ]

  -- The session that `run` passes to its constructor.
  abbrev pub session_of : ReplayManifest → Text → ℕ → ReplayClock → ReplaySession
  session_of m checksum processed c = record {
    replay_session_id = m.replay_session_id;
    current_time = c.current_time;
    processed_events = processed;
    started_at = m.starts_at;
    completed_at = c.current_time;
    result_checksum = checksum;
  }

  -- `ReplayEngine.run`
  unfoldable pub run :
      (ReplayManifest → List (ReplayEvent E) → Text)
      → ReplayManifest
      → List (ReplayEvent E)
      → ReplayClock
      → W
      → Result ReplayError ReplaySession × (ReplayClock × W)
  run checksum m events c w = elim (validate_engine_inputs m c >> sort_replay_events events) [
    | raise x ↦ (raise x, (c, w))
    | ok ordered ↦
        let (r, (c', w')) = replay_events m.replay_session_id ordered 0 c w in
        (r >>= λ n. make_session m (session_of m (checksum m ordered) n c'), (c', w'))
  ]
