-- ===== src/Common/Int.antt =====
-- Signed integers over the native numbers, under the library's names (its ℤ stands on the unary ℕ).
-- Sums and orders go through the two parts of an integer, which are numbers that `omega` reads.
use Prim.Native.Nat.{ℕ, suc, ◌+◌, ◌-◌, ◌*◌, ◌≤◌}
use mathlib.Core.Path.{◌≡◌, ap}
use mathlib.Core.Logic.{◌⊎◌}
use mathlib.Core.Bool.{Bool}
use native.Mathlib.Omega.{arith}
use pmrp.Common.Tests.{ltb, leb, nat_eqb, if◌then◌else◌}

-- `negsuc n` is -(n + 1).
pub data ℤ : Type 0 where
  pos : ℕ → ℤ
  negsuc : ℕ → ℤ

abbrev pub pos_part : ℤ → ℕ
pos_part (pos n) = n
pos_part (negsuc n) = 0

abbrev pub neg_part : ℤ → ℕ
neg_part (pos n) = 0
neg_part (negsuc n) = suc n

-- a - b, as an integer.
abbrev pub sub_ℕ : ℕ → ℕ → ℤ
sub_ℕ a b = if leb b a then pos (a - b) else negsuc (b - a - 1)

infixl 65 ◌+ℤ◌ ◌-ℤ◌
infix 50 ◌≤ℤ◌
unfoldable pub ◌+ℤ◌ : ℤ → ℤ → ℤ
a +ℤ b = sub_ℕ (pos_part a + pos_part b) (neg_part a + neg_part b)

unfoldable pub ◌-ℤ◌ : ℤ → ℤ → ℤ
a -ℤ b = sub_ℕ (pos_part a + neg_part b) (neg_part a + pos_part b)

abbrev pub ◌≤ℤ◌ : ℤ → ℤ → Type 0
a ≤ℤ b = pos_part a + neg_part b ≤ pos_part b + neg_part a

abbrev pub leb_ℤ : ℤ → ℤ → Bool
leb_ℤ a b = leb (pos_part a + neg_part b) (pos_part b + neg_part a)

abbrev pub eqb_ℤ : ℤ → ℤ → Bool
eqb_ℤ a b = nat_eqb (pos_part a + neg_part b) (pos_part b + neg_part a)

abbrev pub ltb_ℤ : ℤ → ℤ → Bool
ltb_ℤ a b = ltb (pos_part a + neg_part b) (pos_part b + neg_part a)

-- With the operations unfolded `ground` splits on the signs.
pub +ℤ_comm : (a b : ℤ) → a +ℤ b ≡ b +ℤ a
unfolding ◌+ℤ◌
+ℤ_comm a b = ground arith

pub +ℤ_assoc : (a b c : ℤ) → a +ℤ b +ℤ c ≡ a +ℤ (b +ℤ c)
unfolding ◌+ℤ◌
+ℤ_assoc a b c = ground arith

pub +ℤ_cancel : (a b : ℤ) → a +ℤ b -ℤ b ≡ a
unfolding ◌+ℤ◌ ◌-ℤ◌
+ℤ_cancel a b = ground arith

pub ≤ℤ_total : (a b : ℤ) → (a ≤ℤ b) ⊎ (b ≤ℤ a)
≤ℤ_total a b = omega arith

-- One lemma for each operation lets `omega` work with the operations shut, at any depth.
pub +ℤ_parts :
    (a b : ℤ)
    → pos_part (a +ℤ b) + neg_part a + neg_part b ≡ neg_part (a +ℤ b) + pos_part a + pos_part b
unfolding ◌+ℤ◌
+ℤ_parts a b = ground arith

pub -ℤ_parts :
    (a b : ℤ)
    → pos_part (a -ℤ b) + neg_part a + pos_part b ≡ neg_part (a -ℤ b) + pos_part a + neg_part b
unfolding ◌-ℤ◌
-ℤ_parts a b = ground arith

pub eq_of_parts : (a b : ℤ) → pos_part a + neg_part b ≡ pos_part b + neg_part a → a ≡ b
eq_of_parts a b h = ground arith

-- An equation of integers, as `omega` takes it.
pub parts_of_eq : {a b : ℤ} → a ≡ b → pos_part a + neg_part b ≡ pos_part b + neg_part a
parts_of_eq e = omega (arith, ap pos_part e, ap neg_part e)

pub ruleset int_laws = (arith, +ℤ_parts, -ℤ_parts, eq_of_parts)

pub +ℤ_mono : (a b c d : ℤ) → a ≤ℤ b → c ≤ℤ d → a +ℤ c ≤ℤ b +ℤ d
+ℤ_mono a b c d h k = omega int_laws

unfoldable pub neg_ℤ : ℤ → ℤ
neg_ℤ a = sub_ℕ (neg_part a) (pos_part a)

infixl 70 ◌*ℤ◌
unfoldable pub ◌*ℤ◌ : ℤ → ℤ → ℤ
pos a *ℤ pos b = pos (a * b)
pos a *ℤ negsuc b = sub_ℕ 0 (a * suc b)
negsuc a *ℤ pos b = sub_ℕ 0 (suc a * b)
negsuc a *ℤ negsuc b = pos (suc a * suc b)

abbrev pub abs_ℤ : ℤ → ℕ
abs_ℤ a = pos_part a + neg_part a

pub neg_ℤ_parts : (a : ℤ) → pos_part (neg_ℤ a) + pos_part a ≡ neg_part (neg_ℤ a) + neg_part a
unfolding neg_ℤ
neg_ℤ_parts a = ground arith

-- A product with a number that is not negative goes part by part.
pub pos_mul_parts :
    (c : ℕ) (z : ℤ)
    → (pos_part (pos c *ℤ z) ≡ c * pos_part z) × (neg_part (pos c *ℤ z) ≡ c * neg_part z)
unfolding ◌*ℤ◌
pos_mul_parts c (pos n) = ground arith
pos_mul_parts c (negsuc n) = ground arith

pub pos_mul_sub : (c p a : ℕ) → pos c *ℤ (pos p -ℤ pos a) ≡ pos (c * p) -ℤ pos (c * a)
pos_mul_sub c p a =
    let z = pos p -ℤ pos a in
    let parts = -ℤ_parts (pos p) (pos a) in
    omega (int_laws, pos_mul_parts c z, ap (λ (t : ℕ). c * t) parts)
