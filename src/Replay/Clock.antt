-- ===== src/Replay/Clock.antt =====
-- The bounded replay clock (clock/replay.py) and its advance to an event (replay/clock.py).
use pmrp.Common.{ℕ, not, ◌||◌, Option, none, some, ltb, if◌then◌else◌}
use pmrp.Common.Equality.{◌==◌}
use pmrp.Common.Text.{Text, text_eq}
use pmrp.Common.Result.{Result, ok, raise, ◌>>◌, raise_if}
use pmrp.Replay.Sorter.{
  ReplayError, session_missing, session_mismatch, time_reversed, out_of_window, ReplayEvent,
}

pub record ReplayClock : Type 0 where
  pub starts_at : ℕ
  pub ends_at : ℕ
  pub current_time : ℕ

-- `ReplayClock.advance_to`, which raises outside the window.
unfoldable pub advance_to : ReplayClock → ℕ → Result ReplayError ReplayClock
advance_to c t =
    if ltb t c.starts_at || ltb c.ends_at t
    then raise out_of_window
    else ok (record c { current_time = t })

-- The checks of the event's session.
abbrev pub check_session : Option Text → Text → Result ReplayError (Unit {0})
check_session none expected = raise session_missing
check_session (some s) expected = raise_if (not (s == expected)) session_mismatch

-- `advance_replay_clock_to_event`, with the session that the engine passes.
unfoldable pub advance_replay_clock_to_event :
    {E : Type 0} → ReplayClock → ReplayEvent E → Text → Result ReplayError ReplayClock
advance_replay_clock_to_event c e session = do
  check_session e.replay_session_id session
  raise_if (ltb e.occurred_at c.current_time) time_reversed
  advance_to c e.occurred_at
