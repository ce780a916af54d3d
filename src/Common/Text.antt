-- ===== src/Common/Text.antt =====
-- Python's `str` as a list of code points, with its equality, order, `strip` and `len`.
use Prim.Native.Nat.{ℕ}
use mathlib.Core.Path.{◌≡◌}
use mathlib.Core.Logic.{◌↔◌}
use mathlib.Core.Bool.{Bool, true, false, not, ◌&&◌, ◌||◌}
use mathlib.Core.List.{List, [], ◌∷◌, reverse}
use Prim.Native.Char.{code}
use Prim.Native.String.{String}
use native.Mathlib.Omega.{arith}
use pmrp.Common.Tests.{nat_eqb, leb, if◌then◌else◌}
use pmrp.Common.Equality.{HasEq}

abbrev pub Text : Type 0
Text = List ℕ

-- The code points of a literal.
abbrev pub str : String → Text
str String.[] = []
str (String.◌∷◌ c s) = code c ∷ str s

abbrev pub text_eqb : Text → Text → Bool
text_eqb [] [] = true
text_eqb [] (b ∷ t) = false
text_eqb (a ∷ s) [] = false
text_eqb (a ∷ s) (b ∷ t) = nat_eqb a b && text_eqb s t

pub text_eqb_iff : (s t : Text) → (text_eqb s t ≡ true) ↔ (s ≡ t)
text_eqb_iff [] [] = ground arith
text_eqb_iff [] (b ∷ t) = ground arith
text_eqb_iff (a ∷ s) [] = ground arith
text_eqb_iff (a ∷ s) (b ∷ t) = ground (arith, text_eqb_iff s t)

instance abbrev pub text_eq : HasEq Text
text_eq = record { same = text_eqb; same_iff = text_eqb_iff }

-- `str.isspace` of one code point.
abbrev pub is_space : ℕ → Bool
is_space c =
    (leb 9 c && leb c 13)
    || (leb 28 c && leb c 32)
    || nat_eqb c 133
    || nat_eqb c 160
    || nat_eqb c 5760
    || (leb 8192 c && leb c 8202)
    || nat_eqb c 8232
    || nat_eqb c 8233
    || nat_eqb c 8239
    || nat_eqb c 8287
    || nat_eqb c 12288

abbrev pub lstrip : Text → Text
lstrip [] = []
lstrip (c ∷ s) = let rest = lstrip s in if is_space c then rest else c ∷ s

abbrev pub strip : Text → Text
strip s = reverse (lstrip (reverse (lstrip s)))

-- The guard `value == "" or value.strip() != value`, which the program writes in many places.
abbrev pub is_blank_or_padded : Text → Bool
is_blank_or_padded s = text_eqb s [] || not (text_eqb (strip s) s)
