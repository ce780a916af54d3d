-- ===== src/Commands/Hook/Table.antt =====
-- What eviction and trimming keep of the hook's table.
use pmrp.Common.{
  ℕ, zero, suc, ◌≤◌, ◌≡◌, refl, ◌⊎◌, inl, inr, true, false, Option, none, some, [], ◌∷◌, arith, ltb,
  length, if◌then◌else◌, Bool-cases,
}
use pmrp.Common.Text.{Text, text_eq, text_eqb_iff}
use pmrp.Common.Dict.{Dict, get, IsUnique}
use pmrp.Commands.Hook.{Entry, evict_oldest_terminal_entry, is_kept, trim_loop}

module _ {R : Type 0} where
  -- An eviction takes one entry away, or none.
  pub length-evict :
      (p : Option Text) (d : Dict Text (Entry R))
      → let (removed, d') = evict_oldest_terminal_entry p d in
        length d ≡ (if removed then suc (length d') else length d')
  unfolding evict_oldest_terminal_entry
  length-evict p [] = refl
  length-evict p ((k, x) ∷ d) = ground (arith, length-evict p d)

  -- A key that was absent stays absent.
  pub get-evict_none :
      (p : Option Text) (key : Text) (d : Dict Text (Entry R))
      → get key d ≡ none
      → get key (evict_oldest_terminal_entry p d).1 ≡ none
  unfolding evict_oldest_terminal_entry
  get-evict_none p key [] h = refl
  get-evict_none p key ((k, x) ∷ d) h = ground (arith, get-evict_none p key d)

  pub evict-IsUnique :
      (p : Option Text) (d : Dict Text (Entry R))
      → IsUnique d
      → IsUnique (evict_oldest_terminal_entry p d).1
  unfolding evict_oldest_terminal_entry
  evict-IsUnique p [] u = tt
  evict-IsUnique p ((k, x) ∷ d) u = ground (arith, evict-IsUnique p d u.1, get-evict_none p k d u.0)

  -- An entry that is in progress, or protected, survives.
  pub get-evict_kept :
      (p : Option Text) (key : Text) (x : Entry R) (d : Dict Text (Entry R))
      → get key d ≡ some x
      → is_kept p key x ≡ true
      → get key (evict_oldest_terminal_entry p d).1 ≡ some x
  unfolding evict_oldest_terminal_entry
  get-evict_kept p key x [] h k = cc
  get-evict_kept p key x ((j, y) ∷ d) h k =
      ground (arith, text_eqb_iff j key, get-evict_kept p key x d)

  -- Eviction invents nothing: what it leaves was there.
  pub get-evict_some :
      (p : Option Text) (key : Text) (x : Entry R) (d : Dict Text (Entry R))
      → IsUnique d
      → get key (evict_oldest_terminal_entry p d).1 ≡ some x
      → get key d ≡ some x
  unfolding evict_oldest_terminal_entry
  get-evict_some p key x [] u h = h
  get-evict_some p key x ((j, y) ∷ d) u h =
      ground (arith, text_eqb_iff j key, get-evict_some p key x d u.1)

  pub get-trim_loop_kept :
      (fuel n : ℕ) (p key : Text) (x : Entry R) (d : Dict Text (Entry R))
      → get key d ≡ some x
      → is_kept (some p) key x ≡ true
      → get key (trim_loop fuel n p d) ≡ some x
  unfolding trim_loop
  get-trim_loop_kept zero n p key x d h k = h
  get-trim_loop_kept (suc fuel) n p key x d h k =
      let d' = (evict_oldest_terminal_entry (some p) d).1 in
      ground (arith, get-evict_kept (some p) key x d h k, get-trim_loop_kept fuel n p key x d')

  pub trim_loop-IsUnique :
      (fuel n : ℕ) (p : Text) (d : Dict Text (Entry R))
      → IsUnique d
      → IsUnique (trim_loop fuel n p d)
  unfolding trim_loop
  trim_loop-IsUnique zero n p d u = u
  trim_loop-IsUnique (suc fuel) n p d u =
      let d' = (evict_oldest_terminal_entry (some p) d).1 in
      ground (arith, evict-IsUnique (some p) d u, trim_loop-IsUnique fuel n p d')

  pub length-trim_loop-le :
      (fuel n : ℕ) (p : Text) (d : Dict Text (Entry R)) → length (trim_loop fuel n p d) ≤ length d
  unfolding trim_loop
  length-trim_loop-le zero n p d = omega arith
  length-trim_loop-le (suc fuel) n p d =
      let d' = (evict_oldest_terminal_entry (some p) d).1 in
      ground (arith, length-evict (some p) d, length-trim_loop-le fuel n p d')

  -- With as much fuel as there are entries the loop ends by itself: the table is within its
  -- capacity, or no entry that is left can be evicted.
  trim_loop_ends :
      (fuel n : ℕ) (p : Text) (d : Dict Text (Entry R))
      → length d ≤ fuel
      → (length (trim_loop fuel n p d) ≤ n)
        ⊎ ((evict_oldest_terminal_entry (some p) (trim_loop fuel n p d)).0 ≡ false)
  unfolding trim_loop
  trim_loop_ends zero n p d h = inl (omega arith)
  trim_loop_ends (suc fuel) n p d h =
      let d' = (evict_oldest_terminal_entry (some p) d).1 in
      elim (Bool-cases (ltb n (length d))) [
        | inl over ↦ elim (Bool-cases (evict_oldest_terminal_entry (some p) d).0) [
          | inl hit ↦
              rw (over, hit) (trim_loop_ends fuel n p d' (ground (arith, length-evict (some p) d)))
          | inr miss ↦ rw (over, miss) (inr miss)
        ]
        | inr within ↦ rw within (inl (ground arith))
      ]
