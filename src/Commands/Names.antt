-- ===== src/Commands/Names.antt =====
-- The two regular expressions that command and event types, and schema names, must match
-- (commands/registry.py, events/registry.py).
use pmrp.Common.{ℕ, Bool, true, false, ◌&&◌, ◌||◌, [], ◌∷◌, leb, nat_eqb}
use pmrp.Common.Text.{Text}

-- `[a-z]`
abbrev pub is_lower : ℕ → Bool
is_lower c = leb b'a' c && leb c b'z'

-- `[a-z0-9_]`
abbrev pub is_word : ℕ → Bool
is_word c = is_lower c || (leb b'0' c && leb c b'9') || nat_eqb c b'_'

-- What the matcher may read next: the first letter of a segment, or more of one. `dots` says
-- whether a dot has been read.
pub data Place : Type 0 where
  first : Place
  inside : Place

-- `^[a-z][a-z0-9_]*(\.[a-z][a-z0-9_]*)+$`, read from left to right.
abbrev pub matches_dotted : Place → Bool → Text → Bool
matches_dotted first dots [] = false
matches_dotted first dots (c ∷ s) = is_lower c && matches_dotted inside dots s
matches_dotted inside dots [] = dots
matches_dotted inside dots (c ∷ s) = elim (nat_eqb c b'.') [
  | true ↦ matches_dotted first true s
  | false ↦ is_word c && matches_dotted inside dots s
]

-- `_validate_command_type`: whether it returns.
abbrev pub is_command_type : Text → Bool
is_command_type = matches_dotted first false

-- `^[a-z][a-z0-9_]*$` after its first character.
abbrev pub matches_word : Text → Bool
matches_word [] = true
matches_word (c ∷ s) = is_word c && matches_word s

-- `_validate_schema_name`: whether it returns.
abbrev pub is_schema_name : Text → Bool
is_schema_name [] = false
is_schema_name (c ∷ s) = is_lower c && matches_word s
