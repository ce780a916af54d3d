-- ===== src/Simulation/OrderBook/Replay.antt =====
-- A run of deltas: `apply_order_book_deltas` as one change of the book.
use pmrp.Common.{
  ℕ, ◌+◌, ◌≡◌, ◌↔◌, refl, sym, ap, ◌∙◌, inl, inr, subst, Option, some, List, [], ◌∷◌, ◌++◌, arith,
  length,
}
use pmrp.Common.Text.{Text}
use pmrp.Common.Result.{ok, bind_value}
use pmrp.Simulation.MarketData.{
  Side, buy, sell, OrderBookLevel, OrderBookSnapshot, OrderBookDelta, OrderBookDeltaLevel,
}
use pmrp.Simulation.OrderBook.{
  projected, apply_order_book_delta, apply_order_book_deltas, sequence_or,
}
use pmrp.Simulation.OrderBook.Prices.{find_level}
use pmrp.Simulation.OrderBook.Projection.{level_after}
use pmrp.Simulation.OrderBook.Delta.{
  IsBook, IsAccepted, validate_sequence_iff, projected-level, projected-IsBook,
  apply_delta-accepted, apply_delta_inversion,
}

-- `apply_order_book_delta` returns a snapshot just when the delta is accepted: the snapshot is
-- valid, the identifiers agree, the sequence is the next one and the reason is well formed. From a
-- book, the snapshot it then returns is a book, and has at each price of each side the level that
-- the changes, in their order, leave there.
pub apply_delta_iff :
    (s t : OrderBookSnapshot) (d : OrderBookDelta) (reason : Text)
    → IsBook s
    → ((apply_order_book_delta s d reason ≡ ok t)
        ↔ (IsAccepted s d reason × (t ≡ projected s d reason)))
      × IsBook (projected s d reason)
      × ((p : ℕ)
          → (find_level p (projected s d reason).bids
              ≡ level_after d.changes buy p (find_level p s.bids))
            × (find_level p (projected s d reason).asks
                ≡ level_after d.changes sell p (find_level p s.asks)))
apply_delta_iff s t d reason b = (
  (apply_delta_inversion s t d reason, λ (a, e). apply_delta-accepted s d reason a ∙ ap ok (sym e)),
  projected-IsBook s d reason,
  λ p. projected-level s d reason p b,
)

abbrev pub all_changes : List OrderBookDelta → List OrderBookDeltaLevel
all_changes [] = []
all_changes (d ∷ ds) = d.changes ++ all_changes ds

level_after-++ :
    (cs bs : List OrderBookDeltaLevel) (side : Side) (p : ℕ) (o : Option OrderBookLevel)
    → level_after (cs ++ bs) side p o ≡ level_after bs side p (level_after cs side p o)
level_after-++ [] bs side p o = refl
level_after-++ (c ∷ cs) bs side p o = level_after-++ cs bs side p _

projected_sequence :
    (s : OrderBookSnapshot) (d : OrderBookDelta) (reason : Text)
    → (projected s d reason).sequence ≡ sequence_or d.sequence s.sequence
unfolding projected
projected_sequence s d reason = refl

accepted_sequence :
    (s : OrderBookSnapshot) (d : OrderBookDelta) (reason : Text) (n : ℕ)
    → IsAccepted s d reason
    → s.sequence ≡ some n
    → (projected s d reason).sequence ≡ some (n + 1)
accepted_sequence s d reason n a e =
    elim ((validate_sequence_iff s.sequence d.previous_sequence d.sequence).0 a.in_sequence) [
      | inl (h, p, x) ↦ ground arith
      | inr (m, h, x, p) ↦ projected_sequence s d reason ∙ ground arith
    ]

-- If `apply_order_book_deltas` returns from a book, what it returns is a book, and has at each
-- price of each side the level that all the changes, in their order, leave there; and a sequence
-- number that the first snapshot has goes up by one for each delta, so no delta was lost or
-- applied twice.
pub apply_deltas_lem :
    (ds : List OrderBookDelta) (s t : OrderBookSnapshot) (reason : Text)
    → IsBook s
    → apply_order_book_deltas s ds reason ≡ ok t
    → IsBook t
      × ((n : ℕ) → s.sequence ≡ some n → t.sequence ≡ some (n + length ds))
      × ((p : ℕ)
          → (find_level p t.bids ≡ level_after (all_changes ds) buy p (find_level p s.bids))
            × (find_level p t.asks ≡ level_after (all_changes ds) sell p (find_level p s.asks)))
unfolding apply_order_book_deltas
apply_deltas_lem [] s t reason b h =
    let e : s ≡ t = ground arith in
    (
      subst IsBook e b,
      (λ n x. ap (λ (r : OrderBookSnapshot). r.sequence) (sym e) ∙ x ∙ ground arith),
      λ p. (
        ap (λ (r : OrderBookSnapshot). find_level p r.bids) (sym e),
        ap (λ (r : OrderBookSnapshot). find_level p r.asks) (sym e),
      ),
    )
apply_deltas_lem (d ∷ ds) s t reason b h =
    let (u, first, rest) = bind_value (apply_order_book_delta s d reason) _ h in
    let (accepted, e) = apply_delta_inversion s u d reason first in
    let ub : IsBook u = subst IsBook (sym e) (projected-IsBook s d reason) in
    let (book, next, levels) = apply_deltas_lem ds u t reason ub rest in
    (
      book,
      (λ n x.
          next (n + 1) (
            ap (λ (r : OrderBookSnapshot). r.sequence) e
            ∙ accepted_sequence s d reason n accepted x)
          ∙ ground arith),
      λ p.
          let step = projected-level s d reason p b in
          (
            (levels p).0
                ∙ ap (level_after (all_changes ds) buy p)
                    (ap (λ (r : OrderBookSnapshot). find_level p r.bids) e ∙ step.0)
                ∙ sym (level_after-++ d.changes (all_changes ds) buy p _),
            (levels p).1
                ∙ ap (level_after (all_changes ds) sell p)
                    (ap (λ (r : OrderBookSnapshot). find_level p r.asks) e ∙ step.1)
                ∙ sym (level_after-++ d.changes (all_changes ds) sell p _),
          ),
    )
