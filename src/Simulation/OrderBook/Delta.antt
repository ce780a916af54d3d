-- ===== src/Simulation/OrderBook/Delta.antt =====
-- `apply_order_book_delta` and `apply_order_book_deltas`: when they return, and what.
use pmrp.Common.{
  ℕ, ◌+◌, ◌≤◌, ◌≡◌, ◌↔◌, refl, ap, ◌∙◌, ◌⊎◌, inl, inr, subst, true, false, Option, none, some, [],
  ◌∷◌, arith, length,
}
use pmrp.Common.Text.{Text, text_eq, text_eqb_iff, is_blank_or_padded}
use pmrp.Common.Result.{Result, ok, raise, raise_if_inversion, bind_inversion}
use pmrp.Simulation.MarketData.{
  buy, sell, OrderBookSnapshot, OrderBookDelta, SchemaError, strictly_descending,
  strictly_ascending, prices, validate_snapshot_schema,
}
use pmrp.Simulation.OrderBook.{
  Levels, projected, apply_order_book_delta, validate_sequence, validate_snapshot, validate_lineage,
  levels_by_price, from_schema,
}
use pmrp.Simulation.OrderBook.Prices.{find_level, find_level-sorted_levels}
use pmrp.Simulation.OrderBook.Strict.{
  sorted_levels-strictly, levels_by_price-IsKeyed, get-levels_by_price,
}
use pmrp.Simulation.OrderBook.Projection.{level_after, foldl-apply_change}

-- The order that the schema demands of every snapshot.
pub record IsBook (s : OrderBookSnapshot) : Type 0 where
  pub bids_descend : strictly_descending (prices s.bids) ≡ true
  pub asks_ascend : strictly_ascending (prices s.asks) ≡ true

-- What a delta must meet to be applied.
pub record IsAccepted (s : OrderBookSnapshot) (d : OrderBookDelta) (reason : Text) : Type 0 where
  pub valid : s.is_valid ≡ true
  pub same_market : s.market_id ≡ d.market_id
  pub same_contract : s.contract_id ≡ d.contract_id
  pub same_exchange : s.exchange ≡ d.exchange
  pub in_sequence : validate_sequence s.sequence d.previous_sequence d.sequence ≡ ok tt
  pub reason_given : is_blank_or_padded reason ≡ false
  pub reason_short : length reason ≤ 128

-- The sequence check passes just when nothing is sequenced, or the delta is the next one and
-- names no other predecessor.
pub validate_sequence_iff :
    (held previous next : Option ℕ)
    → (validate_sequence held previous next ≡ ok tt) ↔ (
        ((held ≡ none) × (previous ≡ none) × (next ≡ none))
        ⊎ ((n : ℕ) × (held ≡ some n)
            × (next ≡ some (n + 1))
            × ((previous ≡ none) ⊎ (previous ≡ some n))))
unfolding validate_sequence
validate_sequence_iff none none none = ground arith
validate_sequence_iff none none (some c) = ground arith
validate_sequence_iff none (some b) c = ground arith
validate_sequence_iff (some a) none none = ground arith
validate_sequence_iff (some a) none (some c) =
    (λ h. inr (a, refl, ground arith, inl refl), ground arith)
validate_sequence_iff (some a) (some b) none = ground arith
validate_sequence_iff (some a) (some b) (some c) =
    (λ h. inr (a, refl, ground arith, inr (ground arith)), ground arith)

-- The projected book has at each price what the changes, in order, leave there.
pub projected-level :
    (s : OrderBookSnapshot) (d : OrderBookDelta) (reason : Text) (p : ℕ)
    → IsBook s
    → let t = projected s d reason in
      (find_level p t.bids ≡ level_after d.changes buy p (find_level p s.bids))
      × (find_level p t.asks ≡ level_after d.changes sell p (find_level p s.asks))
unfolding projected
projected-level s d reason p b =
    let ds : Levels × Levels = (levels_by_price s.bids, levels_by_price s.asks) in
    let (bids, bid) = foldl-apply_change d.changes buy p ds (levels_by_price-IsKeyed s.bids) in
    let (asks, ask) = foldl-apply_change d.changes sell p ds (levels_by_price-IsKeyed s.asks) in
    (
      find_level-sorted_levels true p _ bids
          ∙ bid
          ∙ ap (level_after d.changes buy p) (get-levels_by_price true p s.bids b.bids_descend),
      find_level-sorted_levels false p _ asks
          ∙ ask
          ∙ ap (level_after d.changes sell p) (get-levels_by_price false p s.asks b.asks_ascend),
    )

pub projected-IsBook :
    (s : OrderBookSnapshot) (d : OrderBookDelta) (reason : Text) → IsBook (projected s d reason)
unfolding projected
projected-IsBook s d reason =
    let ds : Levels × Levels = (levels_by_price s.bids, levels_by_price s.asks) in
    record {
      bids_descend =
          sorted_levels-strictly true _
            (foldl-apply_change d.changes buy 0 ds (levels_by_price-IsKeyed s.bids)).0;
      asks_ascend =
          sorted_levels-strictly false _
            (foldl-apply_change d.changes sell 0 ds (levels_by_price-IsKeyed s.asks)).0;
    }

schema_passes :
    (t : OrderBookSnapshot)
    → IsBook t
    → 1 ≤ length t.snapshot_reason
    → length t.snapshot_reason ≤ 128
    → validate_snapshot_schema t ≡ ok t
unfolding validate_snapshot_schema
schema_passes t b l u = ground (arith, b.bids_descend, b.asks_ascend)

schema_inversion :
    (t t' : OrderBookSnapshot)
    → validate_snapshot_schema t ≡ ok t'
    → (length t.snapshot_reason ≤ 128) × (t' ≡ t)
unfolding validate_snapshot_schema
schema_inversion t t' h = ground arith

length-reason : (reason : Text) → is_blank_or_padded reason ≡ false → 1 ≤ length reason
length-reason [] h = cc
length-reason (c ∷ s) h = omega arith

projected_reason :
    (s : OrderBookSnapshot) (d : OrderBookDelta) (reason : Text)
    → (projected s d reason).snapshot_reason ≡ reason
unfolding projected
projected_reason s d reason = refl

projected_schema :
    (s : OrderBookSnapshot) (d : OrderBookDelta) (reason : Text)
    → is_blank_or_padded reason ≡ false
    → length reason ≤ 128
    → validate_snapshot_schema (projected s d reason) ≡ ok (projected s d reason)
projected_schema s d reason given short =
    let e = projected_reason s d reason in
    schema_passes (projected s d reason) (projected-IsBook s d reason)
      (rw e (length-reason reason given)) (rw e short)

-- An accepted delta is always applied: the constructor's own checks cannot fail.
pub apply_delta-accepted :
    (s : OrderBookSnapshot) (d : OrderBookDelta) (reason : Text)
    → IsAccepted s d reason
    → apply_order_book_delta s d reason ≡ ok (projected s d reason)
unfolding apply_order_book_delta
apply_delta-accepted s d reason a =
    rw (a.reason_given, a.in_sequence, projected_schema s d reason a.reason_given a.reason_short)
      (ground (
        arith,
        text_eqb_iff s.market_id d.market_id,
        text_eqb_iff s.contract_id d.contract_id,
        text_eqb_iff s.exchange d.exchange,
      ))

validate_lineage_inversion :
    (s : OrderBookSnapshot) (d : OrderBookDelta)
    → validate_lineage s d ≡ ok tt
    → (s.market_id ≡ d.market_id) × (s.contract_id ≡ d.contract_id) × (s.exchange ≡ d.exchange)
validate_lineage_inversion s d h = ground (
  arith,
  text_eqb_iff s.market_id d.market_id,
  text_eqb_iff s.contract_id d.contract_id,
  text_eqb_iff s.exchange d.exchange,
)

from_schema_inversion :
    (r : Result SchemaError OrderBookSnapshot) (t : OrderBookSnapshot)
    → from_schema r ≡ ok t
    → r ≡ ok t
from_schema_inversion (ok s) t h = ground arith
from_schema_inversion (raise x) t h = ground arith

-- Only an accepted delta is applied.
pub apply_delta_inversion :
    (s t : OrderBookSnapshot) (d : OrderBookDelta) (reason : Text)
    → apply_order_book_delta s d reason ≡ ok t
    → IsAccepted s d reason × (t ≡ projected s d reason)
unfolding apply_order_book_delta
apply_delta_inversion s t d reason h =
    let v = bind_inversion (validate_snapshot s) _ h in
    let l = bind_inversion (validate_lineage s d) _ v.1 in
    let q = bind_inversion (validate_sequence s.sequence d.previous_sequence d.sequence) _ l.1 in
    let r = raise_if_inversion (is_blank_or_padded reason) _ _ q.1 in
    let c = schema_inversion (projected s d reason) t (from_schema_inversion _ t r.1) in
    let ids = validate_lineage_inversion s d l.0 in
    (
      record {
        valid = ground (arith, v.0);
        same_market = ids.0;
        same_contract = ids.1;
        same_exchange = ids.2;
        in_sequence = q.0;
        reason_given = r.0;
        reason_short = subst (λ (x : Text). length x ≤ 128) (projected_reason s d reason) c.0;
      },
      c.1,
    )
