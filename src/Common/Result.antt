-- ===== src/Common/Result.antt =====
-- Calls that may raise: a value or the exception, and the sequence of two calls.
use mathlib.Core.Path.{◌≡◌, refl}
use native.Mathlib.Omega.{arith}
use mathlib.Core.Bool.{Bool, true, false}

pub data Result {ℓ κ} (E : Type ℓ) (A : Type κ) : Type (ℓ ⊔ κ) where
  ok : A → Result E A
  raise : E → Result E A

infixl 5 ◌>>=◌ ◌>>◌
abbrev pub ◌>>=◌ {ℓ κ μ} :
    {E : Type ℓ} {A : Type κ} {B : Type μ} → Result E A → (A → Result E B) → Result E B
ok a >>= f = f a
raise x >>= f = raise x

abbrev pub ◌>>◌ {ℓ κ} : {E : Type ℓ} {B : Type κ} → Result E (Unit {0}) → Result E B → Result E B
m >> k = m >>= λ _. k

-- `if test: raise error`
abbrev pub raise_if {ℓ} : {E : Type ℓ} → Bool → E → Result E (Unit {0})
raise_if true x = raise x
raise_if false x = ok tt

-- What a chain that returns says of its first call.
pub raise_if_inversion {ℓ κ} :
    {E : Type ℓ} {B : Type κ} (t : Bool) (x : E) (k : Result E B) {b : B}
    → (raise_if t x >> k) ≡ ok b
    → (t ≡ false) × (k ≡ ok b)
raise_if_inversion true x k h = ground arith
raise_if_inversion false x k h = (refl, h)

pub bind_inversion {ℓ κ} :
    {E : Type ℓ} {B : Type κ} (m : Result E (Unit {0})) (k : Result E B) {b : B}
    → (m >> k) ≡ ok b
    → (m ≡ ok tt) × (k ≡ ok b)
bind_inversion (ok u) k h = (refl, h)
bind_inversion (raise x) k h = ground arith

pub bind_value {ℓ κ μ} :
    {E : Type ℓ} {A : Type κ} {B : Type μ} (m : Result E A) (k : A → Result E B) {b : B}
    → (m >>= k) ≡ ok b
    → (a : A) × (m ≡ ok a) × (k a ≡ ok b)
bind_value (ok a) k h = (a, refl, h)
bind_value (raise x) k h = ground arith
