-- ===== src/Common/Sort.antt =====
-- Python's `sorted`: a stable sort by a total preorder, as an insertion sort.
use mathlib.Core.Path.{◌≡◌, refl}
use mathlib.Core.Logic.{◌⊎◌, inl, inr}
use mathlib.Core.Bool.{Bool, true, false, ◌||◌}
use mathlib.Core.List.{List, [], ◌∷◌, Perm}
use mathlib.Core.List.Perm
use native.Mathlib.Omega.{arith}
use Prim.Native.Nat.{ℕ}
use pmrp.Common.Tests.{if◌then◌else◌, leb, Bool-cases}
use pmrp.Common.Lists.{All, All-map, All-keep_if, any_of, keep_if}

-- A total preorder, as a test.
pub record Order {ℓ} (A : Type ℓ) : Type ℓ where
  pub le : A → A → Bool
  pub total : (a b : A) → (le a b ≡ true) ⊎ (le b a ≡ true)
  pub trans : (a b c : A) → le a b ≡ true → le b c ≡ true → le a c ≡ true

-- The order of the keys.
abbrev pub order_by {ℓ κ} : {A : Type ℓ} {B : Type κ} → (A → B) → Order B → Order A
order_by f o = record {
  le = λ a b. o.le (f a) (f b);
  total = λ a b. o.total (f a) (f b);
  trans = λ a b c. o.trans (f a) (f b) (f c);
}

-- `reverse=True`: equal elements keep their order.
abbrev pub order_reverse {ℓ} : {A : Type ℓ} → Order A → Order A
order_reverse o = record {
  le = λ a b. o.le b a;
  total = λ a b. o.total b a;
  trans = λ a b c h k. o.trans c b a k h;
}

module _ {ℓ} {A : Type ℓ} (o : Order A) where
  abbrev pub insert_sorted : A → List A → List A
  insert_sorted x [] = x ∷ []
  insert_sorted x (y ∷ ys) =
      let rest = insert_sorted x ys in if o.le x y then x ∷ y ∷ ys else y ∷ rest

  unfoldable pub sorted : List A → List A
  sorted [] = []
  sorted (x ∷ xs) = insert_sorted x (sorted xs)

  abbrev pub IsSorted : List A → Type ℓ
  IsSorted [] = Unit
  IsSorted (x ∷ xs) = All (λ y. o.le x y ≡ true) xs × IsSorted xs

  insert_sorted-perm : (x : A) (xs : List A) → Perm (insert_sorted x xs) (x ∷ xs)
  insert_sorted-perm x [] = Perm.refl _
  insert_sorted-perm x (y ∷ ys) = elim (Bool-cases (o.le x y)) [
    | inl e ↦ rw e (Perm.refl _)
    | inr e ↦ rw e (Perm.trans (Perm.cons y (insert_sorted-perm x ys)) (Perm.swap x y ys))
  ]

  pub sorted-perm : (xs : List A) → Perm (sorted xs) xs
  unfolding sorted
  sorted-perm [] = Perm.refl _
  sorted-perm (x ∷ xs) =
      Perm.trans (insert_sorted-perm x (sorted xs)) (Perm.cons x (sorted-perm xs))

  pub insert_sorted-All {κ} :
      (P : A → Type κ) (x : A) (xs : List A) → P x → All P xs → All P (insert_sorted x xs)
  insert_sorted-All P x [] p h = (p, tt)
  insert_sorted-All P x (y ∷ ys) p h = elim (Bool-cases (o.le x y)) [
    | inl e ↦ rw e (p, h)
    | inr e ↦ rw e (h.0, insert_sorted-All P x ys p h.1)
  ]

  pub sorted-All {κ} : (P : A → Type κ) (xs : List A) → All P xs → All P (sorted xs)
  unfolding sorted
  sorted-All P [] h = tt
  sorted-All P (x ∷ xs) h = insert_sorted-All P x (sorted xs) h.0 (sorted-All P xs h.1)

  insert_sorted-IsSorted : (x : A) (xs : List A) → IsSorted xs → IsSorted (insert_sorted x xs)
  insert_sorted-IsSorted x [] s = (tt, tt)
  insert_sorted-IsSorted x (y ∷ ys) s = elim (Bool-cases (o.le x y)) [
    | inl e ↦ rw e ((e, All-map _ _ (λ z h. o.trans x y z e h) ys s.0), s)
    | inr e ↦ rw e (
      insert_sorted-All _ x ys (ground (arith, o.total x y)) s.0,
      insert_sorted-IsSorted x ys s.1,
    )
  ]

  pub sorted-IsSorted : (xs : List A) → IsSorted (sorted xs)
  unfolding sorted
  sorted-IsSorted [] = tt
  sorted-IsSorted (x ∷ xs) = insert_sorted-IsSorted x (sorted xs) (sorted-IsSorted xs)

  any_of-insert_sorted :
      (p : A → Bool) (x : A) (xs : List A) → any_of p (insert_sorted x xs) ≡ (p x || any_of p xs)
  any_of-insert_sorted p x [] = refl
  any_of-insert_sorted p x (y ∷ ys) = ground (arith, any_of-insert_sorted p x ys)

  pub any_of-sorted : (p : A → Bool) (xs : List A) → any_of p (sorted xs) ≡ any_of p xs
  unfolding sorted
  any_of-sorted p [] = refl
  any_of-sorted p (x ∷ xs) = rw (any_of-insert_sorted p x (sorted xs)) (rw (any_of-sorted p xs))

  pub keep_if-IsSorted : (p : A → Bool) (xs : List A) → IsSorted xs → IsSorted (keep_if p xs)
  keep_if-IsSorted p [] s = tt
  keep_if-IsSorted p (x ∷ xs) s = elim (Bool-cases (p x)) [
    | inl e ↦ rw e (All-keep_if _ p xs s.0, keep_if-IsSorted p xs s.1)
    | inr e ↦ rw e (keep_if-IsSorted p xs s.1)
  ]

  -- A list in order is left as it is.
  pub sorted-eq : (xs : List A) → IsSorted xs → sorted xs ≡ xs
  unfolding sorted
  sorted-eq [] s = refl
  sorted-eq (x ∷ []) s = refl
  sorted-eq (x ∷ y ∷ xs) s = rw (sorted-eq (y ∷ xs) s.1) (rw s.0.0)

-- The order of numbers.
pub nat_total : (a b : ℕ) → (leb a b ≡ true) ⊎ (leb b a ≡ true)
nat_total a b = ground arith

pub nat_trans : (a b c : ℕ) → leb a b ≡ true → leb b c ≡ true → leb a c ≡ true
nat_trans a b c h k = ground arith

abbrev pub nat_order : Order ℕ
nat_order = record { le = leb; total = nat_total; trans = nat_trans }

-- Lexicographic order of lists: of texts by code points, and of tuples.
module _ {ℓ} {A : Type ℓ} (o : Order A) where
  abbrev pub lex_leb : List A → List A → Bool
  lex_leb [] ys = true
  lex_leb (x ∷ xs) [] = false
  lex_leb (x ∷ xs) (y ∷ ys) =
      let rest = lex_leb xs ys in if o.le x y then (if o.le y x then rest else true) else false

  pub lex_total : (xs ys : List A) → (lex_leb xs ys ≡ true) ⊎ (lex_leb ys xs ≡ true)
  lex_total [] ys = inl refl
  lex_total (x ∷ xs) [] = inr refl
  lex_total (x ∷ xs) (y ∷ ys) = ground (arith, o.total x y, lex_total xs ys)

  pub lex_trans :
      (xs ys zs : List A) → lex_leb xs ys ≡ true → lex_leb ys zs ≡ true → lex_leb xs zs ≡ true
  lex_trans [] ys zs h k = refl
  lex_trans (x ∷ xs) [] zs h k = cc
  lex_trans (x ∷ xs) (y ∷ ys) [] h k = cc
  lex_trans (x ∷ xs) (y ∷ ys) (z ∷ zs) h k =
      ground (arith, o.trans x y z, o.trans z x y, o.trans y z x, o.trans y x z, lex_trans xs ys zs)

  abbrev pub lex_order : Order (List A)
  lex_order = record { le = lex_leb; total = lex_total; trans = lex_trans }

abbrev pub text_order : Order (List ℕ)
text_order = lex_order nat_order
