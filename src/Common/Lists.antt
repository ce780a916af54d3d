-- ===== src/Common/Lists.antt =====
-- Lists measured by native numbers, Boolean filters and predicates by recursion.
use Prim.Native.Nat.{ℕ, zero, suc, ◌+◌, ◌≤◌}
use mathlib.Core.Path.{◌≡◌, refl}
use mathlib.Core.Logic.{◌⊎◌, inl, inr}
use mathlib.Core.Bool.{Bool, true, false, ◌&&◌, ◌||◌}
use mathlib.Core.List.{List, [], ◌∷◌, ◌++◌, map}
use native.Mathlib.Omega.{arith}
use pmrp.Common.Tests.{if◌then◌else◌, Bool-cases}

module _ {ℓ} {A : Type ℓ} where
  abbrev pub length : List A → ℕ
  length [] = 0
  length (x ∷ xs) = suc (length xs)

  -- Python's comprehension with a condition.
  abbrev pub keep_if : (A → Bool) → List A → List A
  keep_if p [] = []
  keep_if p (x ∷ xs) = let rest = keep_if p xs in if p x then x ∷ rest else rest

  abbrev pub all_of : (A → Bool) → List A → Bool
  all_of p [] = true
  all_of p (x ∷ xs) = p x && all_of p xs

  abbrev pub any_of : (A → Bool) → List A → Bool
  any_of p [] = false
  any_of p (x ∷ xs) = p x || any_of p xs

  -- `xs[:n]`
  abbrev pub take : ℕ → List A → List A
  take zero xs = []
  take (suc n) [] = []
  take (suc n) (x ∷ xs) = x ∷ take n xs

  pub length-take : (n : ℕ) (xs : List A) → length (take n xs) ≤ n
  length-take zero xs = omega arith
  length-take (suc n) [] = omega arith
  length-take (suc n) (x ∷ xs) = omega (arith, length-take n xs)

  pub length-append : (xs ys : List A) → length (xs ++ ys) ≡ length xs + length ys
  length-append [] ys = omega arith
  length-append (x ∷ xs) ys = omega (arith, length-append xs ys)

-- A predicate at every element.
abbrev pub All {ℓ κ} : {A : Type ℓ} → (A → Type κ) → List A → Type κ
All P [] = Unit
All P (x ∷ xs) = P x × All P xs

-- Taking an element out of the middle.
pub All-delete {ℓ κ} :
    {A : Type ℓ} (P : A → Type κ) (xs : List A) (x : A) (ys : List A)
    → All P (xs ++ x ∷ ys)
    → P x × All P (xs ++ ys)
All-delete P [] x ys h = h
All-delete P (y ∷ xs) x ys h = let rest = All-delete P xs x ys h.1 in (rest.0, (h.0, rest.1))

pub All-map {ℓ κ μ} :
    {A : Type ℓ} (P : A → Type κ) (Q : A → Type μ)
    → ((a : A) → P a → Q a)
    → (xs : List A) → All P xs
    → All Q xs
All-map P Q f [] h = tt
All-map P Q f (x ∷ xs) h = (f x h.0, All-map P Q f xs h.1)

pub All-zip {ℓ κ μ} :
    {A : Type ℓ} (P : A → Type κ) (Q : A → Type μ) (xs : List A)
    → All P xs
    → All Q xs
    → All (λ a. P a × Q a) xs
All-zip P Q [] h k = tt
All-zip P Q (x ∷ xs) h k = ((h.0, k.0), All-zip P Q xs h.1 k.1)

pub All-keep_if {ℓ κ} :
    {A : Type ℓ} (P : A → Type κ) (p : A → Bool) (xs : List A) → All P xs → All P (keep_if p xs)
All-keep_if P p [] h = tt
All-keep_if P p (x ∷ xs) h = elim (Bool-cases (p x)) [
  | inl e ↦ rw e (h.0, All-keep_if P p xs h.1)
  | inr e ↦ rw e (All-keep_if P p xs h.1)
]

pub any_of-keep_if {ℓ} :
    {A : Type ℓ} (p q : A → Bool) (xs : List A)
    → any_of q (keep_if p xs) ≡ any_of (λ x. p x && q x) xs
any_of-keep_if p q [] = refl
any_of-keep_if p q (x ∷ xs) = ground (arith, any_of-keep_if p q xs)

-- No element passes a test that none is kept by.
pub All-not {ℓ} :
    {A : Type ℓ} (p : A → Bool) (xs : List A) → any_of p xs ≡ false → All (λ x. p x ≡ false) xs
All-not p [] h = tt
All-not p (x ∷ xs) h = ground (arith, All-not p xs)

pub any_of-map-keep_if {ℓ κ} :
    {A : Type ℓ} {B : Type κ} (f : A → B) (p : A → Bool) (xs : List A)
    → ((map f (keep_if p xs) ≡ []) × (any_of p xs ≡ false))
      ⊎ ((b : B) × (bs : List B) × (map f (keep_if p xs) ≡ b ∷ bs) × (any_of p xs ≡ true))
any_of-map-keep_if f p [] = inl (refl, refl)
any_of-map-keep_if f p (x ∷ xs) = elim (Bool-cases (p x)) [
  | inl e ↦ rw e (inr (f x, map f (keep_if p xs), refl, refl))
  | inr e ↦ rw e (any_of-map-keep_if f p xs)
]
