-- ===== src/Simulation/MarketData.antt =====
-- Canonical order books (schemas/market_data.py). Prices and quantities are not negative, and are
-- numbers of a fixed decimal unit.
use pmrp.Common.{
  ℕ, Bool, true, false, not, ◌&&◌, ◌||◌, Option, none, some, List, [], ◌∷◌, map, ltb, length,
}
use pmrp.Common.Text.{Text}
use pmrp.Common.Result.{Result, ok, ◌>>◌, raise_if}

pub data Side : Type 0 where
  buy sell : Side

pub record OrderBookLevel : Type 0 where
  pub price : ℕ
  pub quantity : ℕ
  pub order_count : Option ℕ

pub record OrderBookSnapshot : Type 0 where
  pub market_id : Text
  pub contract_id : Text
  pub exchange : Text
  pub sequence : Option ℕ
  pub exchange_occurred_at : Option ℕ
  pub received_at : ℕ
  pub bids : List OrderBookLevel
  pub asks : List OrderBookLevel
  pub is_valid : Bool
  pub snapshot_reason : Text

-- `OrderBookDeltaAction`
pub data DeltaAction : Type 0 where
  upsert delete : DeltaAction

pub record OrderBookDeltaLevel : Type 0 where
  pub side : Side
  pub price : ℕ
  pub quantity : ℕ
  pub action : DeltaAction

pub record OrderBookDelta : Type 0 where
  pub market_id : Text
  pub contract_id : Text
  pub exchange : Text
  pub sequence : Option ℕ
  pub previous_sequence : Option ℕ
  pub exchange_occurred_at : Option ℕ
  pub received_at : ℕ
  pub changes : List OrderBookDeltaLevel

-- Whether a price may follow another: it is lower in a descending list, else higher.
abbrev pub follows : Bool → ℕ → ℕ → Bool
follows true previous value = ltb value previous
follows false previous value = ltb previous value

-- The loop of `_strictly_descending` and `_strictly_ascending`, with the last value seen.
abbrev pub strictly : Bool → Option ℕ → List ℕ → Bool
strictly reverse previous [] = true
strictly reverse none (value ∷ values) = strictly reverse (some value) values
strictly reverse (some previous) (value ∷ values) =
    follows reverse previous value && strictly reverse (some value) values

abbrev pub strictly_descending : List ℕ → Bool
strictly_descending = strictly true none

abbrev pub strictly_ascending : List ℕ → Bool
strictly_ascending = strictly false none

abbrev pub prices : List OrderBookLevel → List ℕ
prices = map λ l. l.price

-- What the constructor of a snapshot may raise.
pub data SchemaError : Type 0 where
  bids_not_descending : SchemaError
  asks_not_ascending : SchemaError
  reason_length : SchemaError

-- The constructor's checks: the length of the reason, then `validate_book_ordering`.
unfoldable pub validate_snapshot_schema : OrderBookSnapshot → Result SchemaError OrderBookSnapshot
validate_snapshot_schema s = do
  raise_if (ltb (length s.snapshot_reason) 1 || ltb 128 (length s.snapshot_reason)) reason_length
  raise_if (not (strictly_descending (prices s.bids))) bids_not_descending
  raise_if (not (strictly_ascending (prices s.asks))) asks_not_ascending
  ok s
