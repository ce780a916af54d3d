-- ===== src/Replay/Sorter.antt =====
-- Replay events and their order (replay/sorter.py).
use pmrp.Common.{ℕ, Option, List, [], ◌∷◌, map}
use pmrp.Common.Int.{ℤ, pos, negsuc}
use pmrp.Common.Text.{Text, is_blank_or_padded}
use pmrp.Common.Result.{Result, ok, raise, ◌>>=◌, ◌>>◌, raise_if}
use pmrp.Common.Sort.{Order, order_by, lex_order, text_order, sorted}

-- The reason codes of the replay's exceptions.
pub data ReplayError : Type 0 where
  sequence_invalid partition_invalid : ReplayError
  session_missing session_mismatch time_reversed out_of_window : ReplayError
  policy_unsupported window_mismatch publish_failed session_invalid : ReplayError

-- An attribute of an event: missing or null, an integer, a text, or anything else.
pub data Attribute : Type 0 where
  missing : Attribute
  integer : ℤ → Attribute
  text : Text → Attribute
  other : Attribute

-- What the replay reads of an `EventEnvelope`; the rest is its payload.
pub record ReplayEvent (E : Type 0) : Type 0 where
  pub event_id : Text
  pub occurred_at : ℕ
  pub received_at : ℕ
  pub replay_session_id : Option Text
  pub exchange_sequence : Attribute
  pub source_partition : Attribute
  pub payload : E

-- `_exchange_sequence_key`
abbrev pub exchange_sequence_key : Attribute → Result ReplayError (ℕ × ℕ)
exchange_sequence_key missing = ok (1, 0)
exchange_sequence_key (integer (pos n)) = ok (0, n)
exchange_sequence_key (integer (negsuc n)) = raise sequence_invalid
exchange_sequence_key (text s) = raise sequence_invalid
exchange_sequence_key other = raise sequence_invalid

-- `_source_partition`
abbrev pub source_partition_key : Attribute → Result ReplayError Text
source_partition_key missing = ok []
source_partition_key (text s) = raise_if (is_blank_or_padded s) partition_invalid >> ok s
source_partition_key (integer z) = raise partition_invalid
source_partition_key other = raise partition_invalid

-- The tuple of the key, as a list of its numbers (in lists of one) and texts: lists of these are
-- ordered as the tuples are.
abbrev pub Key : Type 0
Key = List Text

module _ {E : Type 0} where
  -- `replay_event_ordering_key`
  unfoldable pub replay_event_ordering_key : ReplayEvent E → Result ReplayError Key
  replay_event_ordering_key e = do
    (group, value) ← exchange_sequence_key e.exchange_sequence
    partition ← source_partition_key e.source_partition
    ok (
        (e.occurred_at ∷ [])
        ∷ (group ∷ [])
        ∷ (value ∷ [])
        ∷ (e.received_at ∷ [])
        ∷ partition
        ∷ e.event_id
        ∷ [])

  -- `sorted` computes every key first.
  unfoldable pub keyed : List (ReplayEvent E) → Result ReplayError (List (ReplayEvent E × Key))
  keyed [] = ok []
  keyed (e ∷ es) = do k ← replay_event_ordering_key e; rest ← keyed es; ok ((e, k) ∷ rest)

  abbrev pub key_order : Order (ReplayEvent E × Key)
  key_order = order_by (λ p. p.1) (lex_order text_order)

  -- `sort_replay_events`
  unfoldable pub sort_replay_events :
      List (ReplayEvent E) → Result ReplayError (List (ReplayEvent E))
  sort_replay_events es = keyed es >>= λ ks. ok (map (λ p. p.0) (sorted key_order ks))
