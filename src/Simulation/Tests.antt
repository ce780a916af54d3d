-- ===== src/Simulation/Tests.antt =====
-- A small book and two deltas, and the theorems of the order book at them.
use pmrp.Common.{ℕ, ◌+◌, ◌≡◌, ◌⊎◌, ◌↔◌, refl, true, Option, none, some, [], ◌∷◌}
use pmrp.Common.Text.{str}
use pmrp.Common.Result.{ok}
use pmrp.Common.Sort.{sorted}
use pmrp.Simulation.MarketData.{
  buy, sell, OrderBookLevel, OrderBookSnapshot, OrderBookDelta, upsert, delete,
  validate_snapshot_schema,
}
use pmrp.Simulation.OrderBook.{
  projected, apply_order_book_delta, apply_order_book_deltas, validate_sequence, levels_by_price,
  change_levels, apply_change, sorted_levels,
}
use pmrp.Simulation.OrderBook.Prices.{find_level}
use pmrp.Simulation.OrderBook.Projection.{level_after}
use pmrp.Simulation.OrderBook.Delta.{IsBook, IsAccepted, validate_sequence_iff}
use pmrp.Simulation.OrderBook.Replay.{all_changes, apply_delta_iff, apply_deltas_lem}

abbrev level : ℕ → ℕ → OrderBookLevel
level p q = record { price = p; quantity = q; order_count = none }

abbrev snapshot : OrderBookSnapshot
snapshot = record {
  market_id = str "mkt_1";
  contract_id = str "con_1";
  exchange = str "kalshi";
  sequence = some 7;
  exchange_occurred_at = none;
  received_at = 100;
  bids = level 45 10 ∷ level 40 5 ∷ [];
  asks = level 55 8 ∷ [];
  is_valid = true;
  snapshot_reason = str "initial";
}

abbrev delta_1 : OrderBookDelta
delta_1 = record {
  market_id = str "mkt_1";
  contract_id = str "con_1";
  exchange = str "kalshi";
  sequence = some 8;
  previous_sequence = some 7;
  exchange_occurred_at = some 110;
  received_at = 120;
  changes =
      record { side = buy; price = 50; quantity = 3; action = upsert }
      ∷ record { side = buy; price = 45; quantity = 0; action = upsert }
      ∷ record { side = sell; price = 55; quantity = 8; action = delete }
      ∷ [];
}

abbrev delta_2 : OrderBookDelta
delta_2 = record delta_1 {
  sequence = some 9;
  previous_sequence = none;
  changes = record { side = sell; price = 60; quantity = 2; action = upsert } ∷ [];
}

snapshot-IsBook : IsBook snapshot
snapshot-IsBook = record { bids_descend = refl; asks_ascend = refl }

abbrev after_1 : OrderBookSnapshot
after_1 = record snapshot {
  sequence = some 8;
  exchange_occurred_at = some 110;
  received_at = 120;
  bids = level 50 3 ∷ level 40 5 ∷ [];
  asks = [];
  snapshot_reason = str "delta";
}

apply_delta_iff_example :
    ((apply_order_book_delta snapshot delta_1 (str "delta") ≡ ok after_1) ↔ (
      IsAccepted snapshot delta_1 (str "delta")
      × (after_1 ≡ projected snapshot delta_1 (str "delta"))))
    × IsBook (projected snapshot delta_1 (str "delta"))
    × ((p : ℕ)
        → (find_level p (projected snapshot delta_1 (str "delta")).bids
            ≡ level_after delta_1.changes buy p (find_level p snapshot.bids))
          × (find_level p (projected snapshot delta_1 (str "delta")).asks
              ≡ level_after delta_1.changes sell p (find_level p snapshot.asks)))
apply_delta_iff_example = apply_delta_iff snapshot after_1 delta_1 (str "delta") snapshot-IsBook

abbrev replayed : OrderBookSnapshot
replayed = record snapshot {
  sequence = some 9;
  exchange_occurred_at = some 110;
  received_at = 120;
  bids = level 50 3 ∷ level 40 5 ∷ [];
  asks = level 60 2 ∷ [];
  snapshot_reason = str "delta";
}

deltas_applied :
    apply_order_book_deltas snapshot (delta_1 ∷ delta_2 ∷ []) (str "delta") ≡ ok replayed
unfolding apply_order_book_deltas apply_order_book_delta validate_sequence validate_snapshot_schema
    projected levels_by_price change_levels apply_change sorted_levels sorted
deltas_applied = refl

apply_deltas_lem_example :
    IsBook replayed
    × ((n : ℕ) → snapshot.sequence ≡ some n → replayed.sequence ≡ some (n + 2))
    × ((p : ℕ)
        → (find_level p replayed.bids
            ≡ level_after (all_changes (delta_1 ∷ delta_2 ∷ [])) buy p (find_level p snapshot.bids))
          × (find_level p replayed.asks
              ≡ level_after
                  (all_changes (delta_1 ∷ delta_2 ∷ []))
                  sell
                  p
                  (find_level p snapshot.asks)))
apply_deltas_lem_example =
    apply_deltas_lem (delta_1 ∷ delta_2 ∷ []) snapshot replayed (str "delta") snapshot-IsBook
      deltas_applied

abbrev no_sequence : Option ℕ
no_sequence = none

validate_sequence_iff_example : (validate_sequence (some 7) (some 7) (some 8) ≡ ok tt) ↔ (
    ((some 7 ≡ no_sequence) × (some 7 ≡ no_sequence) × (some 8 ≡ no_sequence))
    ⊎ ((n : ℕ) × (some 7 ≡ some n)
        × (some 8 ≡ some (n + 1))
        × ((some 7 ≡ no_sequence) ⊎ (some 7 ≡ some n))))
validate_sequence_iff_example = validate_sequence_iff (some 7) (some 7) (some 8)
