-- ===== src/Simulation/OrderBook/Projection.antt =====
-- What `apply_order_book_delta` makes of a snapshot, level by level.
use pmrp.Common.{
  ℕ, ◌≡◌, refl, ap, ◌∙◌, inl, inr, Bool, true, false, ◌&&◌, ◌||◌, Option, none, some, List, [], ◌∷◌,
  arith, nat_eqb, if◌then◌else◌, Bool-cases,
}
use mathlib.Core.List.{foldl}
use pmrp.Common.Equality.{nat_eq, nat_eqb_iff}
use pmrp.Common.Text.{text_eq}
use pmrp.Common.Dict.{
  get, remove, get-put, put-IsUnique, remove-IsUnique, get-remove_self, get-remove_ne, All-put,
  All-remove,
}
use pmrp.Simulation.MarketData.{Side, buy, sell, OrderBookLevel, OrderBookDeltaLevel}
use pmrp.Simulation.OrderBook.{Levels, change_levels, apply_change, is_delete}
use pmrp.Simulation.OrderBook.Prices.{IsKeyed}

abbrev pub same_side : Side → Side → Bool
same_side buy buy = true
same_side sell sell = true
same_side _ _ = false

-- One change seen from one price of one side: it replaces the level there or takes it away, and
-- concerns no other price and no other side.
abbrev pub level_after_change :
    OrderBookDeltaLevel → Side → ℕ → Option OrderBookLevel → Option OrderBookLevel
level_after_change c side p o =
    if same_side c.side side && nat_eqb c.price p
    then (if is_delete c.action || nat_eqb c.quantity 0
        then none
        else some (record { price = c.price; quantity = c.quantity; order_count = none }))
    else o

abbrev pub level_after :
    List OrderBookDeltaLevel → Side → ℕ → Option OrderBookLevel → Option OrderBookLevel
level_after [] side p o = o
level_after (c ∷ cs) side p o = level_after cs side p (level_after_change c side p o)

abbrev pub side_of : Side → Levels × Levels → Levels
side_of buy (bids, asks) = bids
side_of sell (bids, asks) = asks

change_levels-IsKeyed :
    (c : OrderBookDeltaLevel) (d : Levels) → IsKeyed d → IsKeyed (change_levels c d)
unfolding change_levels
change_levels-IsKeyed c d k = elim (Bool-cases (is_delete c.action || nat_eqb c.quantity 0)) [
  | inl e ↦ rw e (record {
    unique = remove-IsUnique c.price d k.unique;
    keyed = All-remove _ c.price d k.keyed;
  })
  | inr e ↦ rw e (record {
    unique = put-IsUnique c.price _ d k.unique;
    keyed = All-put _ c.price _ d refl k.keyed;
  })
]

get-change_levels :
    (c : OrderBookDeltaLevel) (p : ℕ) (d : Levels)
    → IsKeyed d
    → get p (change_levels c d) ≡ (
        if nat_eqb c.price p
        then (if is_delete c.action || nat_eqb c.quantity 0
            then none
            else some (record { price = c.price; quantity = c.quantity; order_count = none }))
        else get p d)
unfolding change_levels
get-change_levels c p d k = elim (Bool-cases (is_delete c.action || nat_eqb c.quantity 0)) [
  | inl e ↦ rw e (
      ground (
        arith,
        get-remove_self c.price d k.unique,
        get-remove_ne c.price p d,
        nat_eqb_iff c.price p,
        ap (λ (n : ℕ). get n (remove c.price d)) {x = c.price} {y = p},
      ))
  | inr e ↦ rw e (get-put c.price p _ d)
]

apply_change-IsKeyed :
    (c : OrderBookDeltaLevel) (side : Side) (ds : Levels × Levels)
    → IsKeyed (side_of side ds)
    → IsKeyed (side_of side (apply_change ds c))
unfolding apply_change
apply_change-IsKeyed c side (bids, asks) k = sided c.side side bids asks k
  where
    sided :
        (s t : Side) (bids asks : Levels)
        → IsKeyed (side_of t (bids, asks))
        → IsKeyed (
            side_of t
              (elim s [ buy ↦ (change_levels c bids, asks) | sell ↦ (bids, change_levels c asks) ]))
    sided buy buy bids asks k = change_levels-IsKeyed c bids k
    sided buy sell bids asks k = k
    sided sell buy bids asks k = k
    sided sell sell bids asks k = change_levels-IsKeyed c asks k

get-apply_change :
    (c : OrderBookDeltaLevel) (side : Side) (p : ℕ) (ds : Levels × Levels)
    → IsKeyed (side_of side ds)
    → get p (side_of side (apply_change ds c))
      ≡ level_after_change c side p (get p (side_of side ds))
unfolding apply_change
get-apply_change c buy p (bids, asks) k = ground (arith, get-change_levels c p bids k)
get-apply_change c sell p (bids, asks) k = ground (arith, get-change_levels c p asks k)

pub foldl-apply_change :
    (cs : List OrderBookDeltaLevel) (side : Side) (p : ℕ) (ds : Levels × Levels)
    → IsKeyed (side_of side ds)
    → IsKeyed (side_of side (foldl apply_change ds cs))
      × (get p (side_of side (foldl apply_change ds cs))
          ≡ level_after cs side p (get p (side_of side ds)))
foldl-apply_change [] side p ds k = (k, refl)
foldl-apply_change (c ∷ cs) side p ds k =
    let (keyed, found) =
      foldl-apply_change cs side p (apply_change ds c) (apply_change-IsKeyed c side ds k) in
    (keyed, found ∙ ap (level_after cs side p) (get-apply_change c side p ds k))
