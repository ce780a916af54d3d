-- ===== src/Portfolio/Decimals.antt =====
-- The arithmetic context of decimals: Python's default context keeps 28 digits of a result, and
-- quotients are rounded. A magnitude is its number of units; a context rounds it whatever its unit.
use pmrp.Common.{ℕ, suc, ◌+◌, ◌-◌, ◌*◌, ◌≤◌, ◌≡◌, refl, ap, arith}
use pmrp.Common.Int.{ℤ, pos, negsuc, ◌-ℤ◌, ◌*ℤ◌, neg_ℤ, abs_ℤ}

-- A context rounds the magnitude of a result and divides magnitudes; as the decimal module
-- documents, a result of no more digits than the precision is exact.
pub record Context : Type 0 where
  pub round : ℕ → ℕ
  pub divide : ℕ → ℕ → ℕ
  pub limit : ℕ
  pub exact : (n : ℕ) → n ≤ limit → round n ≡ n

-- A signed result, rounded by its magnitude.
unfoldable pub round_ℤ : Context → ℤ → ℤ
round_ℤ c (pos n) = pos (c.round n)
round_ℤ c (negsuc n) = neg_ℤ (pos (c.round (suc n)))

-- A result within the limit is kept.
pub round_ℤ-exact : (c : Context) (z : ℤ) → abs_ℤ z ≤ c.limit → round_ℤ c z ≡ z
unfolding round_ℤ neg_ℤ
round_ℤ-exact c (pos n) h = rw (c.exact n (omega (arith, h))) refl
round_ℤ-exact c (negsuc n) h = rw (c.exact (suc n) (omega (arith, h))) (ground arith)

grows : (a k p : ℕ) → a * p ≤ (a + k) * p
grows a k p = omega arith

pub mul_mono : (a b p : ℕ) → a ≤ b → a * p ≤ b * p
mul_mono a b p h =
    let e : b ≡ a + (b - a) = omega (arith, h) in
    omega (arith, grows a (b - a) p, ap (λ (t : ℕ). t * p) e)

-- The difference of two magnitudes is at most the larger one.
pub round_difference :
    (c : Context) (a b : ℕ)
    → a ≤ c.limit
    → b ≤ c.limit
    → round_ℤ c (pos a -ℤ pos b) ≡ pos a -ℤ pos b
unfolding ◌-ℤ◌
round_difference c a b h k = round_ℤ-exact c (pos a -ℤ pos b) (ground (arith, h, k))

pub abs_mul : (z : ℤ) (a : ℕ) → abs_ℤ (z *ℤ pos a) ≡ abs_ℤ z * a
unfolding ◌*ℤ◌
abs_mul (pos n) a = ground arith
abs_mul (negsuc n) a = ground arith

pub abs_difference : (a b : ℤ) → abs_ℤ (a -ℤ b) ≤ abs_ℤ a + abs_ℤ b
unfolding ◌-ℤ◌
abs_difference a b = ground arith

-- A difference is exact when the two magnitudes together fit.
pub difference-exact :
    (c : Context) (a b : ℤ) → abs_ℤ a + abs_ℤ b ≤ c.limit → round_ℤ c (a -ℤ b) ≡ a -ℤ b
difference-exact c a b h = round_ℤ-exact c (a -ℤ b) (omega (arith, abs_difference a b, h))

pub product-exact :
    (c : Context) (z : ℤ) (a : ℕ) → abs_ℤ z * a ≤ c.limit → round_ℤ c (z *ℤ pos a) ≡ z *ℤ pos a
product-exact c z a h = round_ℤ-exact c (z *ℤ pos a) (omega (arith, abs_mul z a, h))
