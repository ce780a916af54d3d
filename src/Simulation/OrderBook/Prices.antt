-- ===== src/Simulation/OrderBook/Prices.antt =====
-- Levels by price: the sorted list holds what the table holds, in strict order.
use pmrp.Common.{
  ℕ, ◌≡◌, ◌≢◌, refl, sym, ap, ◌∙◌, inl, inr, Bool, true, false, Option, none, some, List, [], ◌∷◌,
  map, arith, nat_eqb, All, All-map, if◌then◌else◌, Bool-cases,
}
use pmrp.Common.Equality.{nat_eq}
use pmrp.Common.Dict.{get, IsUnique}
use pmrp.Common.Sort.{insert_sorted, sorted, insert_sorted-All, sorted-All}
use pmrp.Simulation.MarketData.{OrderBookLevel}
use pmrp.Simulation.OrderBook.{Levels, level_order, sorted_levels}

-- The level at a price in a list.
abbrev pub find_level : ℕ → List OrderBookLevel → Option OrderBookLevel
find_level p [] = none
find_level p (l ∷ ls) = if nat_eqb l.price p then some l else find_level p ls

-- No price stands twice.
abbrev pub DistinctPrices : List OrderBookLevel → Type 0
DistinctPrices [] = Unit
DistinctPrices (l ∷ ls) = All (λ m. l.price ≢ m.price) ls × DistinctPrices ls

-- Each level stands under its price, and no price twice.
pub record IsKeyed (d : Levels) : Type 0 where
  pub unique : IsUnique d
  pub keyed : All (λ e. e.1.price ≡ e.0) d

levels : Levels → List OrderBookLevel
levels = map λ e. e.1

find_level-insert :
    (reverse : Bool) (p : ℕ) (l : OrderBookLevel) (ls : List OrderBookLevel)
    → find_level p (insert_sorted (level_order reverse) l ls) ≡ find_level p (l ∷ ls)
find_level-insert reverse p l [] = refl
find_level-insert true p l (m ∷ ls) = ground (arith, find_level-insert true p l ls)
find_level-insert false p l (m ∷ ls) = ground (arith, find_level-insert false p l ls)

find_level-sorted :
    (reverse : Bool) (p : ℕ) (ls : List OrderBookLevel)
    → find_level p (sorted (level_order reverse) ls) ≡ find_level p ls
unfolding sorted
find_level-sorted reverse p [] = refl
find_level-sorted reverse p (l ∷ ls) =
    find_level-insert reverse p l (sorted (level_order reverse) ls)
    ∙ ap (λ o. if nat_eqb l.price p then some l else o) (find_level-sorted reverse p ls)

find_level-levels :
    (p : ℕ) (d : Levels) → All (λ e. e.1.price ≡ e.0) d → find_level p (map (λ e. e.1) d) ≡ get p d
find_level-levels p [] h = refl
find_level-levels p ((k, l) ∷ d) h = ground (arith, h.0, find_level-levels p d h.1)

-- The sorted list has at each price what the table has.
pub find_level-sorted_levels :
    (reverse : Bool) (p : ℕ) (d : Levels)
    → IsKeyed d
    → find_level p (sorted_levels reverse d) ≡ get p d
unfolding sorted_levels
find_level-sorted_levels reverse p d k =
    find_level-sorted reverse p (map (λ e. e.1) d) ∙ find_level-levels p d k.keyed

absent-price :
    (p : ℕ) (d : Levels)
    → All (λ e. e.1.price ≡ e.0) d
    → get p d ≡ none
    → All (λ m. p ≢ m.price) (map (λ e. e.1) d)
absent-price p [] h n = tt
absent-price p ((k, l) ∷ d) h n = (ground (arith, h.0), absent-price p d h.1 (ground arith))

pub DistinctPrices-levels : (d : Levels) → IsKeyed d → DistinctPrices (map (λ e. e.1) d)
DistinctPrices-levels [] k = tt
DistinctPrices-levels ((p, l) ∷ d) k = (
  All-map _ _ (λ m n e. n (sym k.keyed.0 ∙ e)) _ (absent-price p d k.keyed.1 k.unique.0),
  DistinctPrices-levels d (record { unique = k.unique.1; keyed = k.keyed.1 }),
)

DistinctPrices-insert :
    (reverse : Bool) (l : OrderBookLevel) (ls : List OrderBookLevel)
    → All (λ m. l.price ≢ m.price) ls
    → DistinctPrices ls
    → DistinctPrices (insert_sorted (level_order reverse) l ls)
DistinctPrices-insert reverse l [] n h = (tt, tt)
DistinctPrices-insert reverse l (m ∷ ls) n h = elim (Bool-cases ((level_order reverse).le l m)) [
  | inl e ↦ rw e (n, h)
  | inr e ↦ rw e (
    insert_sorted-All (level_order reverse) _ l ls (λ q. n.0 (sym q)) h.0,
    DistinctPrices-insert reverse l ls n.1 h.1,
  )
]

pub DistinctPrices-sorted :
    (reverse : Bool) (ls : List OrderBookLevel)
    → DistinctPrices ls
    → DistinctPrices (sorted (level_order reverse) ls)
unfolding sorted
DistinctPrices-sorted reverse [] h = tt
DistinctPrices-sorted reverse (l ∷ ls) h =
    DistinctPrices-insert reverse l (sorted (level_order reverse) ls)
      (sorted-All (level_order reverse) _ ls h.0) (DistinctPrices-sorted reverse ls h.1)
