-- ===== src/Simulation/OrderBook/Strict.antt =====
-- Strictly ordered lists of levels, and the table that is built from one.
use pmrp.Common.{
  ℕ, ◌≡◌, ◌≢◌, refl, ◌∙◌, inl, inr, Bool, true, false, Option, none, some, List, [], ◌∷◌, map,
  arith, nat_eqb, All, All-map, Bool-cases,
}
use mathlib.Core.List.{foldl}
use pmrp.Common.Equality.{nat_eq, nat_eqb_iff}
use pmrp.Common.Text.{text_eq}
use pmrp.Common.Dict.{get, put, get-put, put-IsUnique, All-put}
use pmrp.Common.Sort.{IsSorted, sorted-IsSorted}
use pmrp.Simulation.MarketData.{OrderBookLevel, follows, strictly, prices}
use pmrp.Simulation.OrderBook.{Levels, levels_by_price, level_order, sorted_levels}
use pmrp.Simulation.OrderBook.Prices.{
  find_level, DistinctPrices, DistinctPrices-sorted, DistinctPrices-levels, IsKeyed,
}

-- A list in order that repeats no price is strictly ordered.
strictly-sorted :
    (reverse : Bool) (l : OrderBookLevel) (ls : List OrderBookLevel)
    → IsSorted (level_order reverse) (l ∷ ls)
    → DistinctPrices (l ∷ ls)
    → strictly reverse (some l.price) (prices ls) ≡ true
strictly-sorted reverse l [] s d = refl
strictly-sorted true l (m ∷ ls) s d =
    ground (arith, s.0.0, d.0.0, strictly-sorted true m ls s.1 d.1)
strictly-sorted false l (m ∷ ls) s d =
    ground (arith, s.0.0, d.0.0, strictly-sorted false m ls s.1 d.1)

strictly-none :
    (reverse : Bool) (ls : List OrderBookLevel)
    → IsSorted (level_order reverse) ls
    → DistinctPrices ls
    → strictly reverse none (prices ls) ≡ true
strictly-none reverse [] s d = refl
strictly-none reverse (l ∷ ls) s d = strictly-sorted reverse l ls s d

pub sorted_levels-strictly :
    (reverse : Bool) (d : Levels)
    → IsKeyed d
    → strictly reverse none (prices (sorted_levels reverse d)) ≡ true
unfolding sorted_levels
sorted_levels-strictly reverse d k =
    strictly-none reverse _ (sorted-IsSorted (level_order reverse) (map (λ e. e.1) d))
      (DistinctPrices-sorted reverse (map (λ e. e.1) d) (DistinctPrices-levels d k))

follows_trans :
    (reverse : Bool) (a b c : ℕ)
    → follows reverse a b ≡ true
    → follows reverse b c ≡ true
    → follows reverse a c ≡ true
follows_trans true a b c h k = ground arith
follows_trans false a b c h k = ground arith

follows_ne : (reverse : Bool) (a b : ℕ) → follows reverse a b ≡ true → a ≢ b
follows_ne true a b h = ground arith
follows_ne false a b h = ground arith

strictly-All :
    (reverse : Bool) (a : ℕ) (ls : List OrderBookLevel)
    → strictly reverse (some a) (prices ls) ≡ true
    → All (λ m. follows reverse a m.price ≡ true) ls × DistinctPrices ls
strictly-All reverse a [] h = (tt, tt)
strictly-All reverse a (m ∷ ls) h =
    let first : follows reverse a m.price ≡ true = ground arith in
    let (later, distinct) = strictly-All reverse m.price ls (ground arith) in
    (
      (first, All-map _ _ (λ x k. follows_trans reverse a m.price x.price first k) ls later),
      (All-map _ _ (λ x k. follows_ne reverse m.price x.price k) ls later, distinct),
    )

-- A strictly ordered list repeats no price.
DistinctPrices-strictly :
    (reverse : Bool) (ls : List OrderBookLevel)
    → strictly reverse none (prices ls) ≡ true
    → DistinctPrices ls
DistinctPrices-strictly reverse [] h = tt
DistinctPrices-strictly reverse (l ∷ ls) h =
    let (later, distinct) = strictly-All reverse l.price ls h in
    (All-map _ _ (λ x k. follows_ne reverse l.price x.price k) ls later, distinct)

find_level_absent :
    (p : ℕ) (ls : List OrderBookLevel) → All (λ m. p ≢ m.price) ls → find_level p ls ≡ none
find_level_absent p [] h = refl
find_level_absent p (l ∷ ls) h = ground (arith, h.0, find_level_absent p ls h.1)

abbrev or_else : Option OrderBookLevel → Option OrderBookLevel → Option OrderBookLevel
or_else none o = o
or_else (some l) o = some l

add_level-IsKeyed : (l : OrderBookLevel) (d : Levels) → IsKeyed d → IsKeyed (put l.price l d)
add_level-IsKeyed l d k = record {
  unique = put-IsUnique l.price l d k.unique;
  keyed = All-put _ l.price l d refl k.keyed;
}

foldl-IsKeyed :
    (ls : List OrderBookLevel) (d : Levels)
    → IsKeyed d
    → IsKeyed (foldl (λ d l. put l.price l d) d ls)
foldl-IsKeyed [] d k = k
foldl-IsKeyed (l ∷ ls) d k = foldl-IsKeyed ls (put l.price l d) (add_level-IsKeyed l d k)

foldl-get :
    (p : ℕ) (ls : List OrderBookLevel) (d : Levels)
    → DistinctPrices ls
    → get p (foldl (λ d l. put l.price l d) d ls) ≡ or_else (find_level p ls) (get p d)
foldl-get p [] d h = refl
foldl-get p (l ∷ ls) d h =
    foldl-get p ls (put l.price l d) h.1 ∙ (elim (Bool-cases (nat_eqb l.price p)) [
      | inl e ↦
          rw (find_level_absent p ls (rw ((nat_eqb_iff l.price p).0 e) at h.0))
            (rw (get-put l.price p l d) (rw e))
      | inr e ↦ rw (get-put l.price p l d) (rw e)
    ])

pub levels_by_price-IsKeyed : (ls : List OrderBookLevel) → IsKeyed (levels_by_price ls)
unfolding levels_by_price
levels_by_price-IsKeyed ls = foldl-IsKeyed ls [] (record { unique = tt; keyed = tt })

-- The table has what the list has.
pub get-levels_by_price :
    (reverse : Bool) (p : ℕ) (ls : List OrderBookLevel)
    → strictly reverse none (prices ls) ≡ true
    → get p (levels_by_price ls) ≡ find_level p ls
unfolding levels_by_price
get-levels_by_price reverse p ls h =
    foldl-get p ls [] (DistinctPrices-strictly reverse ls h) ∙ or_else-none (find_level p ls)
  where
    or_else-none : (o : Option OrderBookLevel) → or_else o none ≡ o
    or_else-none none = refl
    or_else-none (some l) = refl
