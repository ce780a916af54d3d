-- ===== src/Simulation/OrderBook.antt =====
-- Order-book projection (simulation/order_book.py).
pub mod Prices
pub mod Strict
pub mod Projection
pub mod Delta
pub mod Replay
use pmrp.Common.{
  ℕ, suc, ◌+◌, Bool, true, false, not, ◌&&◌, ◌||◌, Option, none, some, List, [], ◌∷◌, map, leb,
  nat_eqb, if◌then◌else◌,
}
use mathlib.Core.List.{foldl}
use pmrp.Common.Equality.{◌==◌, nat_eq}
use pmrp.Common.Int.{ℤ, pos, sub_ℕ, leb_ℤ}
use pmrp.Common.Text.{Text, text_eq, is_blank_or_padded}
use pmrp.Common.Dict.{Dict, get, put, remove}
use pmrp.Common.Sort.{Order, order_by, order_reverse, nat_order, sorted}
use pmrp.Common.Result.{Result, ok, raise, ◌>>=◌, ◌>>◌, raise_if}
use pmrp.Simulation.MarketData.{
  Side, buy, sell, OrderBookLevel, OrderBookSnapshot, DeltaAction, upsert, delete,
  OrderBookDeltaLevel, OrderBookDelta, SchemaError, validate_snapshot_schema,
}

-- The reason codes of `SimulationInputError`, and the other exceptions.
pub data BookError : Type 0 where
  snapshot_invalid : BookError
  market_mismatch contract_mismatch exchange_mismatch : BookError
  sequence_ambiguous sequence_mismatch sequence_stale sequence_gap sequence_invalid : BookError
  snapshot_reason_invalid : BookError
  schema_error : SchemaError → BookError

abbrev pub first_level : List OrderBookLevel → Option OrderBookLevel
first_level [] = none
first_level (l ∷ ls) = some l

-- `_validate_snapshot`
abbrev pub validate_snapshot : OrderBookSnapshot → Result BookError (Unit {0})
validate_snapshot s = raise_if (not s.is_valid) snapshot_invalid

pub best_bid : OrderBookSnapshot → Result BookError (Option OrderBookLevel)
best_bid s = do validate_snapshot s; ok (first_level s.bids)

pub best_ask : OrderBookSnapshot → Result BookError (Option OrderBookLevel)
best_ask s = do validate_snapshot s; ok (first_level s.asks)

abbrev pub price_difference : Option OrderBookLevel → Option OrderBookLevel → Option ℤ
price_difference none ask = none
price_difference (some bid) none = none
price_difference (some bid) (some ask) = some (sub_ℕ ask.price bid.price)

pub spread : OrderBookSnapshot → Result BookError (Option ℤ)
unfolding best_bid best_ask
spread s = do bid ← best_bid s; ask ← best_ask s; ok (price_difference bid ask)

abbrev pub is_some_nonpositive : Option ℤ → Bool
is_some_nonpositive none = false
is_some_nonpositive (some d) = leb_ℤ d (pos 0)

pub is_crossed : OrderBookSnapshot → Result BookError Bool
unfolding spread
is_crossed s = do current ← spread s; ok (is_some_nonpositive current)

-- `_validate_lineage`
abbrev pub validate_lineage : OrderBookSnapshot → OrderBookDelta → Result BookError (Unit {0})
validate_lineage s d = do
  raise_if (not (s.market_id == d.market_id)) market_mismatch
  raise_if (not (s.contract_id == d.contract_id)) contract_mismatch
  raise_if (not (s.exchange == d.exchange)) exchange_mismatch

abbrev pub is_present : Option ℕ → Bool
is_present none = false
is_present (some n) = true

-- A test of two numbers that are both present.
abbrev pub both : (ℕ → ℕ → Bool) → Option ℕ → Option ℕ → Bool
both test none b = false
both test (some a) none = false
both test (some a) (some b) = test a b

-- `_validate_sequence`, of the snapshot's sequence, the delta's previous one and the delta's.
unfoldable pub validate_sequence : Option ℕ → Option ℕ → Option ℕ → Result BookError (Unit {0})
validate_sequence held previous next = do
  raise_if (not (is_present held) && (is_present previous || is_present next)) sequence_ambiguous
  raise_if (is_present held && not (is_present next)) sequence_ambiguous
  raise_if (both (λ a b. not (nat_eqb a b)) held previous) sequence_mismatch
  raise_if (both (λ a b. leb b a) held next) sequence_stale
  raise_if (both (λ a b. not (nat_eqb b (a + 1))) held next) sequence_gap
  raise_if (both (λ a b. not (nat_eqb b (a + 1))) previous next) sequence_invalid

abbrev pub Levels : Type 0
Levels = Dict ℕ OrderBookLevel

-- `_levels_by_price`
unfoldable pub levels_by_price : List OrderBookLevel → Levels
levels_by_price = foldl (λ d l. put l.price l d) []

abbrev pub is_delete : DeltaAction → Bool
is_delete delete = true
is_delete upsert = false

-- What `_apply_change` does to the levels of its side.
unfoldable pub change_levels : OrderBookDeltaLevel → Levels → Levels
change_levels c d =
    if is_delete c.action || nat_eqb c.quantity 0
    then remove c.price d
    else put c.price (record { price = c.price; quantity = c.quantity; order_count = none }) d

-- `_apply_change`, on the bids and the asks.
unfoldable pub apply_change : Levels × Levels → OrderBookDeltaLevel → Levels × Levels
apply_change (bids, asks) c = elim c.side [
  | buy ↦ (change_levels c bids, asks)
  | sell ↦ (bids, change_levels c asks)
]

abbrev pub level_order : Bool → Order OrderBookLevel
level_order true = order_reverse (order_by (λ l. l.price) nat_order)
level_order false = order_by (λ l. l.price) nat_order

-- `_sorted_levels`
unfoldable pub sorted_levels : Bool → Levels → List OrderBookLevel
sorted_levels reverse d = sorted (level_order reverse) (map (λ p. p.1) d)

-- `delta.sequence if delta.sequence is not None else snapshot.sequence`
abbrev pub sequence_or : Option ℕ → Option ℕ → Option ℕ
sequence_or none held = held
sequence_or (some n) held = some n

-- The snapshot that the delta leads to, before the constructor checks it.
unfoldable pub projected : OrderBookSnapshot → OrderBookDelta → Text → OrderBookSnapshot
projected s d reason =
    let (bids, asks) =
      foldl apply_change (levels_by_price s.bids, levels_by_price s.asks) d.changes in
    record {
      market_id = s.market_id;
      contract_id = s.contract_id;
      exchange = s.exchange;
      sequence = sequence_or d.sequence s.sequence;
      exchange_occurred_at = d.exchange_occurred_at;
      received_at = d.received_at;
      bids = sorted_levels true bids;
      asks = sorted_levels false asks;
      is_valid = true;
      snapshot_reason = reason;
    }

abbrev pub from_schema : Result SchemaError OrderBookSnapshot → Result BookError OrderBookSnapshot
from_schema (ok s) = ok s
from_schema (raise x) = raise (schema_error x)

unfoldable pub apply_order_book_delta :
    OrderBookSnapshot → OrderBookDelta → Text → Result BookError OrderBookSnapshot
apply_order_book_delta s d reason = do
  validate_snapshot s
  validate_lineage s d
  validate_sequence s.sequence d.previous_sequence d.sequence
  raise_if (is_blank_or_padded reason) snapshot_reason_invalid
  from_schema (validate_snapshot_schema (projected s d reason))

unfoldable pub apply_order_book_deltas :
    OrderBookSnapshot → List OrderBookDelta → Text → Result BookError OrderBookSnapshot
apply_order_book_deltas s [] reason = ok s
apply_order_book_deltas s (d ∷ ds) reason =
    apply_order_book_delta s d reason >>= λ s'. apply_order_book_deltas s' ds reason
