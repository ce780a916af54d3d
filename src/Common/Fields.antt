-- ===== src/Common/Fields.antt =====
-- The bounds of pydantic's fields, and a currency's pattern (schemas/numeric.py).
use Prim.Native.Nat.{ℕ}
use mathlib.Core.Bool.{Bool, true, false, ◌&&◌, ◌||◌}
use mathlib.Core.Option.{Option, none, some}
use mathlib.Core.List.{List, [], ◌∷◌}
use pmrp.Common.Tests.{ltb, leb}
use pmrp.Common.Lists.{length}
use pmrp.Common.Text.{Text}

-- Whether a text's length is outside 1 to `n`: pydantic's `Field(min_length=1, max_length=n)`.
abbrev pub is_bad_length : ℕ → Text → Bool
is_bad_length n s = ltb (length s) 1 || ltb n (length s)

-- The same for an optional text.
abbrev pub is_bad_optional : ℕ → Option Text → Bool
is_bad_optional n none = false
is_bad_optional n (some s) = is_bad_length n s

abbrev pub is_none {ℓ} : {A : Type ℓ} → Option A → Bool
is_none none = true
is_none (some a) = false

abbrev pub is_empty {ℓ} : {A : Type ℓ} → List A → Bool
is_empty [] = true
is_empty (x ∷ xs) = false

-- `validate_currency`, whose pattern is `[A-Z]{3}` on the whole text.
abbrev pub is_upper : ℕ → Bool
is_upper c = leb 65 c && leb c 90

abbrev pub is_currency : Text → Bool
is_currency (a ∷ b ∷ c ∷ []) = is_upper a && is_upper b && is_upper c
is_currency _ = false
