-- ===== src/Replay/Tests.antt =====
-- A small dataset, and the completion of its replay.
use pmrp.Common.{ℕ, ◌≡◌, refl, Bool, true, some, List, [], ◌∷◌, arith, length}
use pmrp.Common.Int.{pos}
use pmrp.Common.Text.{Text, str}
use pmrp.Common.Result.{ok}
use pmrp.Common.Sort.{sorted}
use pmrp.Replay.Sorter.{
  ReplayEvent, missing, integer, sort_replay_events, keyed, replay_event_ordering_key,
}
use pmrp.Replay.Clock.{ReplayClock}
use pmrp.Replay.Engine.{
  ReplayManifest, ordering_policy_version, validate_engine_inputs, session_of, run,
}
use pmrp.Replay.Engine.Completion.{run_completes}

abbrev manifest : ReplayManifest
manifest = record {
  replay_session_id = str "replay_1";
  starts_at = 100;
  ends_at = 900;
  created_at = 50;
  event_ordering_policy_version = ordering_policy_version;
}

abbrev clock : ReplayClock
clock = record { starts_at = 100; ends_at = 900; current_time = 100 }

abbrev late : ReplayEvent ℕ
late = record {
  event_id = str "evt_1";
  occurred_at = 300;
  received_at = 310;
  replay_session_id = some (str "replay_1");
  exchange_sequence = integer (pos 2);
  source_partition = missing;
  payload = 1;
}

abbrev early : ReplayEvent ℕ
early = record late {
  event_id = str "evt_2";
  occurred_at = 200;
  exchange_sequence = missing;
  payload = 2;
}

-- The bus keeps the payloads that it was given.
abbrev publish : ReplayEvent ℕ → List ℕ → Bool × List ℕ
publish e w = (true, e.payload ∷ w)

abbrev checksum : ReplayManifest → List (ReplayEvent ℕ) → Text
checksum m es = length es ∷ []

inputs_valid : validate_engine_inputs manifest clock ≡ ok tt
unfolding validate_engine_inputs
inputs_valid = refl

events_sorted : sort_replay_events (late ∷ early ∷ []) ≡ ok (early ∷ late ∷ [])
unfolding sort_replay_events keyed replay_event_ordering_key sorted
events_sorted = refl

run_completes_example : run publish checksum manifest (late ∷ early ∷ []) clock [] ≡ (
  ok (session_of publish manifest (2 ∷ []) 2 (record clock { current_time = 300 })),
  (record clock { current_time = 300 }, 1 ∷ 2 ∷ []),
)
run_completes_example =
    run_completes publish checksum manifest (late ∷ early ∷ []) (early ∷ late ∷ []) clock []
      inputs_valid events_sorted
      (
        ((refl, omega arith, omega arith), omega arith),
        (((refl, omega arith, omega arith), omega arith), tt),
      )
      (λ e w. refl) (omega arith) (omega arith) (omega arith) refl
