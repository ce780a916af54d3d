-- ===== src/Commands/Hook.antt =====
-- `InMemoryCommandIdempotencyHook` (commands/dispatcher.py): a bounded table of the idempotency
-- keys in use, oldest first. Its methods hold one lock, so each is one atomic step.
pub mod Table
pub mod Laws
use pmrp.Common.{
  ℕ, zero, suc, Bool, true, false, ◌||◌, not, Option, none, some, [], ◌∷◌, ltb, leb, length,
  if◌then◌else◌,
}
use pmrp.Common.Equality.{◌==◌, option_eq}
use pmrp.Common.Text.{Text, text_eq, str}
use pmrp.Common.Dict.{Dict, get, put, move_to_end}
use pmrp.Commands.Types.{
  CommandFailure, FingerprintPayload, CommandEnvelope, CommandIdempotencyDecision,
  CommandIdempotencyHook, claimed, duplicate_completed, duplicate_failed, in_progress_elsewhere,
  conflict, refused,
}

-- `_InMemoryEntryStatus`
pub data EntryStatus : Type 0 where
  in_progress : EntryStatus
  completed : EntryStatus
  failed : EntryStatus

-- `_InMemoryIdempotencyEntry`
pub record Entry (R : Type 0) : Type 0 where
  pub fingerprint : Text
  pub status : EntryStatus
  pub result : Option R
  pub failure : Option CommandFailure

-- The fields of the hook.
pub record Hook (R : Type 0) : Type 0 where
  pub max_entries : ℕ
  pub entries : Dict Text (Entry R)

-- `entry.status is _InMemoryEntryStatus.IN_PROGRESS`
abbrev pub is_in_progress : EntryStatus → Bool
is_in_progress in_progress = true
is_in_progress _ = false

module _ {R : Type 0} where
  abbrev pub claimed_entry : Text → Entry R
  claimed_entry f = record { fingerprint = f; status = in_progress; result = none; failure = none }

  abbrev pub completed_entry : Text → Option R → Entry R
  completed_entry f r = record { fingerprint = f; status = completed; result = r; failure = none }

  abbrev pub failed_entry : Text → CommandFailure → Entry R
  failed_entry f x = record { fingerprint = f; status = failed; result = none; failure = some x }

  -- The test that `_evict_oldest_terminal_entry` skips an entry by.
  abbrev pub is_kept : Option Text → Text → Entry R → Bool
  is_kept protected_key key entry = some key == protected_key || is_in_progress entry.status

  -- `_evict_oldest_terminal_entry`: whether an entry was deleted, and the entries left.
  unfoldable pub evict_oldest_terminal_entry :
      Option Text → Dict Text (Entry R) → Bool × Dict Text (Entry R)
  evict_oldest_terminal_entry p [] = (false, [])
  evict_oldest_terminal_entry p ((key, entry) ∷ d) =
      let rest = evict_oldest_terminal_entry p d in
      if is_kept p key entry then (rest.0, (key, entry) ∷ rest.1) else (true, d)

  -- The loop of `_trim_to_capacity`, on at most as many rounds as there are entries.
  unfoldable pub trim_loop : ℕ → ℕ → Text → Dict Text (Entry R) → Dict Text (Entry R)
  trim_loop zero max_entries key d = d
  trim_loop (suc fuel) max_entries key d =
      let (removed, d') = evict_oldest_terminal_entry (some key) d in
      let rest = trim_loop fuel max_entries key d' in
      if ltb max_entries (length d) then (if removed then rest else d) else d

  unfoldable pub trim_to_capacity : ℕ → Text → Dict Text (Entry R) → Dict Text (Entry R)
  trim_to_capacity max_entries key d = trim_loop (length d) max_entries key d

  abbrev pub claimed_decision : CommandIdempotencyDecision R
  claimed_decision = record { status = claimed; result = none; failure = none; reason = none }

  -- The answer to a command whose key is in the table.
  unfoldable pub existing_decision : Text → Entry R → CommandIdempotencyDecision R
  existing_decision f e =
      if not (e.fingerprint == f)
      then record {
        status = conflict;
        result = none;
        failure = none;
        reason = some (str "command idempotency key conflicts with a different command request");
      }
      else elim e.status [
        | in_progress ↦ record {
          status = in_progress_elsewhere;
          result = none;
          failure = none;
          reason = some (str "command idempotency key is already in progress");
        }
        | completed ↦ record {
          status = duplicate_completed;
          result = e.result;
          failure = none;
          reason = none;
        }
        | failed ↦ elim e.failure [
          | none ↦ record {
            status = refused;
            result = none;
            failure = none;
            reason =
                some (str "command idempotency key has a failed record without failure metadata");
          }
          | some x ↦ record {
            status = duplicate_failed;
            result = none;
            failure = some x;
            reason = none;
          }
        ]
      ]

  -- The claim of a new key, after room has been made.
  unfoldable pub claim :
      ℕ → Text → Text → Dict Text (Entry R) → CommandIdempotencyDecision R × Dict Text (Entry R)
  claim max_entries key f d =
      if leb max_entries (length d)
      then (
        record {
          status = refused;
          result = none;
          failure = none;
          reason = some (str "command idempotency hook capacity is exhausted");
        },
        d,
      )
      else (claimed_decision, put key (claimed_entry f) d)

  -- `if len(self._entries) >= self._max_entries: self._evict_oldest_terminal_entry()`
  unfoldable pub make_room : ℕ → Dict Text (Entry R) → Dict Text (Entry R)
  make_room max_entries d =
      if leb max_entries (length d) then (evict_oldest_terminal_entry none d).1 else d

  unfoldable pub claim_or_answer :
      ℕ → Text → Text → Dict Text (Entry R) → CommandIdempotencyDecision R × Dict Text (Entry R)
  claim_or_answer max_entries key f d = elim (get key d) [
    | some existing ↦ (existing_decision f existing, move_to_end key d)
    | none ↦ claim max_entries key f (make_room max_entries d)
  ]

  -- `self._entries[key] = entry`, the move to the end and the trim, which both recorders make.
  abbrev pub store : Text → Entry R → Hook R → Hook R
  store key entry h = record h {
    entries = trim_to_capacity h.max_entries key (move_to_end key (put key entry h.entries));
  }

-- `_command_idempotency_fingerprint`; `canonical_sha256` of the payload is the parameter `digest`.
abbrev pub command_idempotency_fingerprint :
    {A : Type 0} → (FingerprintPayload A → Text) → CommandEnvelope A → Text
command_idempotency_fingerprint digest c = digest c.payload

module _ {A R : Type 0} (digest : FingerprintPayload A → Text) where
  unfoldable pub before_dispatch :
      CommandEnvelope A → Hook R → CommandIdempotencyDecision R × Hook R
  before_dispatch c h =
      let (decision, entries) =
        claim_or_answer h.max_entries c.idempotency_key (command_idempotency_fingerprint digest c)
          h.entries in
      (decision, record h { entries = entries })

  unfoldable pub record_success : CommandEnvelope A → Option R → Hook R → Hook R
  record_success c r =
      store c.idempotency_key (completed_entry (command_idempotency_fingerprint digest c) r)

  unfoldable pub record_failure : CommandEnvelope A → CommandFailure → Hook R → Hook R
  record_failure c x =
      store c.idempotency_key (failed_entry (command_idempotency_fingerprint digest c) x)

  -- The hook as the dispatcher sees it: none of its methods raises.
  abbrev pub in_memory_hook : CommandIdempotencyHook A R (Hook R)
  in_memory_hook = record {
    before_dispatch = λ c h. let (d, h') = before_dispatch c h in (some d, h');
    record_success = λ c r h. (some tt, record_success c r h);
    record_failure = λ c x h. (some tt, record_failure c x h);
  }
