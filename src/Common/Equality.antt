-- ===== src/Common/Equality.antt =====
-- Equality tests, as an interface with instances for numbers and texts.
use pmrp.Common.Tests.{nat_eqb}
use Prim.Native.Nat.{ℕ}
use mathlib.Core.Path.{◌≡◌, refl}
use mathlib.Core.Logic.{◌↔◌}
use mathlib.Core.Bool.{Bool, true, false}
use mathlib.Core.Option.{Option, none, some}
use native.Mathlib.Omega.{arith}

-- `a == b` of a Python type: a test that tells equal values from others.
pub record HasEq {ℓ} (Key : Type ℓ) : Type ℓ where
  pub same : Key → Key → Bool
  pub same_iff : (j k : Key) → (same j k ≡ true) ↔ (j ≡ k)

infix 50 ◌==◌
abbrev pub ◌==◌ {ℓ} : {Key : Type ℓ} ⦃keys : HasEq Key⦄ → Key → Key → Bool
◌==◌ ⦃keys⦄ j k = keys.same j k

pub nat_eqb_iff : (a b : ℕ) → (nat_eqb a b ≡ true) ↔ (a ≡ b)
nat_eqb_iff a b = ground arith

instance abbrev pub nat_eq : HasEq ℕ
nat_eq = record { same = nat_eqb; same_iff = nat_eqb_iff }

module _ {ℓ} {A : Type ℓ} ⦃e : HasEq A⦄ where
  pub same_refl : (a : A) → e.same a a ≡ true
  same_refl a = (e.same_iff a a).1 refl

  pub same→eq : (a b : A) → e.same a b ≡ true → a ≡ b
  same→eq a b = (e.same_iff a b).0

  abbrev pub option_same : Option A → Option A → Bool
  option_same none none = true
  option_same none (some b) = false
  option_same (some a) none = false
  option_same (some a) (some b) = e.same a b

  pub option_same_iff : (a b : Option A) → (option_same a b ≡ true) ↔ (a ≡ b)
  option_same_iff none none = ground arith
  option_same_iff none (some b) = ground arith
  option_same_iff (some a) none = ground arith
  option_same_iff (some a) (some b) = ground (arith, e.same_iff a b)

instance abbrev pub option_eq {ℓ} : {A : Type ℓ} ⦃e : HasEq A⦄ → HasEq (Option A)
option_eq = record { same = option_same; same_iff = option_same_iff }
