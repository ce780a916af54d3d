-- ===== src/Common/Dict.antt =====
-- Python's `dict` and `OrderedDict` as an association list in insertion order.
use Prim.Native.Nat.{suc}
use mathlib.Core.Path.{◌≡◌, refl, sym, subst}
use mathlib.Core.Logic.{◌↔◌, ◌≢◌, inl, inr}
use mathlib.Core.Bool.{Bool, false, ◌||◌}
use mathlib.Core.Option.{Option, none, some}
use mathlib.Core.List.{List, [], ◌∷◌, ◌++◌}
use native.Mathlib.Omega.{arith}
use pmrp.Common.Tests.{if◌then◌else◌, Option-cases, Bool-cases}
use pmrp.Common.Lists.{length, length-append, All}
use pmrp.Common.Equality.{HasEq, ◌==◌}

abbrev pub Dict {ℓ κ} : Type ℓ → Type κ → Type (ℓ ⊔ κ)
Dict K V = List (K × V)

module _ {ℓ κ} {K : Type ℓ} {V : Type κ} ⦃e : HasEq K⦄ where
  -- `d.get(k)`
  abbrev pub get : K → Dict K V → Option V
  get k [] = none
  get k ((j, v) ∷ d) = if j == k then some v else get k d

  -- `k in d`
  abbrev pub contains : K → Dict K V → Bool
  contains k [] = false
  contains k ((j, v) ∷ d) = j == k || contains k d

  -- `d[k] = v`: an existing key keeps its place, a new one goes to the end.
  abbrev pub put : K → V → Dict K V → Dict K V
  put k v [] = (k, v) ∷ []
  put k v ((j, w) ∷ d) = let rest = put k v d in if j == k then (j, v) ∷ d else (j, w) ∷ rest

  -- `del d[k]`, `d.pop(k, None)`
  abbrev pub remove : K → Dict K V → Dict K V
  remove k [] = []
  remove k ((j, w) ∷ d) = let rest = remove k d in if j == k then d else (j, w) ∷ rest

  pub get-put :
      (k j : K) (v : V) (d : Dict K V) → get j (put k v d) ≡ (if k == j then some v else get j d)
  get-put k j v [] = refl
  get-put k j v ((i, w) ∷ d) =
      ground (arith, e.same_iff i k, e.same_iff i j, e.same_iff k j, get-put k j v d)

  pub get-put_self : (k : K) (v : V) (d : Dict K V) → get k (put k v d) ≡ some v
  get-put_self k v d = ground (arith, get-put k k v d, e.same_iff k k)

  pub get-remove_ne : (k j : K) (d : Dict K V) → k ≢ j → get j (remove k d) ≡ get j d
  get-remove_ne k j [] h = refl
  get-remove_ne k j ((i, w) ∷ d) h =
      ground (arith, e.same_iff i k, e.same_iff i j, get-remove_ne k j d h)

  pub get-append :
      (j : K) (d c : Dict K V)
      → get j (d ++ c) ≡ (elim (get j d) [ none ↦ get j c | some v ↦ some v ])
  get-append j [] c = refl
  get-append j ((i, w) ∷ d) c = ground (arith, get-append j d c)

  pub contains-get : (k : K) (d : Dict K V) → (contains k d ≡ false) ↔ (get k d ≡ none)
  contains-get k [] = ground arith
  contains-get k ((j, v) ∷ d) = ground (arith, contains-get k d)

  -- No key is listed twice.
  abbrev pub IsUnique : Dict K V → Type κ
  IsUnique [] = Unit
  IsUnique ((k, v) ∷ d) = (get k d ≡ none) × IsUnique d

  pub put-IsUnique : (k : K) (v : V) (d : Dict K V) → IsUnique d → IsUnique (put k v d)
  put-IsUnique k v [] u = (refl, tt)
  put-IsUnique k v ((j, w) ∷ d) u =
      ground (arith, e.same_iff j k, e.same_iff k j, get-put k j v d, put-IsUnique k v d u.1)

  pub get-remove_self : (k : K) (d : Dict K V) → IsUnique d → get k (remove k d) ≡ none
  get-remove_self k [] u = refl
  get-remove_self k ((j, w) ∷ d) u = ground (arith, e.same_iff j k, get-remove_self k d u.1)

  pub remove-IsUnique : (k : K) (d : Dict K V) → IsUnique d → IsUnique (remove k d)
  remove-IsUnique k [] u = tt
  remove-IsUnique k ((j, w) ∷ d) u =
      ground (arith, e.same_iff j k, e.same_iff k j, get-remove_ne k j d, remove-IsUnique k d u.1)

  pub snoc-IsUnique :
      (k : K) (v : V) (d : Dict K V) → IsUnique d → get k d ≡ none → IsUnique (d ++ (k, v) ∷ [])
  snoc-IsUnique k v [] u h = (refl, tt)
  snoc-IsUnique k v ((j, w) ∷ d) u h =
      ground (
        arith,
        e.same_iff j k,
        e.same_iff k j,
        get-append j d ((k, v) ∷ []),
        snoc-IsUnique k v d u.1,
      )

  pub length-put :
      (k : K) (v : V) (d : Dict K V)
      → length (put k v d) ≡ (if contains k d then length d else suc (length d))
  length-put k v [] = refl
  length-put k v ((j, w) ∷ d) = ground (arith, length-put k v d)

  pub length-remove :
      (k : K) (d : Dict K V)
      → length d ≡ (if contains k d then suc (length (remove k d)) else length d)
  length-remove k [] = refl
  length-remove k ((j, w) ∷ d) = ground (arith, length-remove k d)

  -- `OrderedDict.move_to_end(k)`, whose key is present wherever the program calls it.
  abbrev pub move_to_end : K → Dict K V → Dict K V
  move_to_end k d = elim (get k d) [ none ↦ d | some v ↦ remove k d ++ (k, v) ∷ [] ]

  pub get-move_to_end : (k j : K) (d : Dict K V) → IsUnique d → get j (move_to_end k d) ≡ get j d
  get-move_to_end k j d u = elim (Option-cases (get k d)) [
    | inl e₀ ↦ rw (e₀, move_to_end)
    | inr (v, e₀) ↦
        rw (e₀, move_to_end)
          (ground (
            arith,
            e.same_iff k j,
            get-remove_ne k j d,
            get-remove_self k d u,
            get-append j (remove k d) ((k, v) ∷ []),
          ))
  ]

  pub move_to_end-IsUnique : (k : K) (d : Dict K V) → IsUnique d → IsUnique (move_to_end k d)
  move_to_end-IsUnique k d u = elim (Option-cases (get k d)) [
    | inl e₀ ↦ rw (e₀, move_to_end) u
    | inr (v, e₀) ↦
        rw (e₀, move_to_end)
          (snoc-IsUnique k v (remove k d) (remove-IsUnique k d u) (get-remove_self k d u))
  ]

  pub length-move_to_end : (k : K) (d : Dict K V) → length (move_to_end k d) ≡ length d
  length-move_to_end k d = elim (Option-cases (get k d)) [
    | inl e₀ ↦ rw (e₀, move_to_end)
    | inr (v, e₀) ↦
        rw (e₀, move_to_end)
          (ground
            (arith, contains-get k d, length-remove k d, length-append (remove k d) ((k, v) ∷ [])))
  ]

  pub All-put {μ} :
      (P : K × V → Type μ) (k : K) (v : V) (d : Dict K V) → P (k, v) → All P d → All P (put k v d)
  All-put P k v [] p h = (p, tt)
  All-put P k v ((j, w) ∷ d) p h = elim (Bool-cases (e.same j k)) [
    | inl same ↦ rw same (subst (λ i. P (i, v)) (sym ((e.same_iff j k).0 same)) p, h.1)
    | inr other ↦ rw other (h.0, All-put P k v d p h.1)
  ]

  pub All-remove {μ} : (P : K × V → Type μ) (k : K) (d : Dict K V) → All P d → All P (remove k d)
  All-remove P k [] h = tt
  All-remove P k ((j, w) ∷ d) h = elim (Bool-cases (e.same j k)) [
    | inl same ↦ rw same h.1
    | inr other ↦ rw other (h.0, All-remove P k d h.1)
  ]

  -- A predicate at every entry holds at the one that is found.
  pub All-get {μ} :
      (P : K × V → Type μ) (k : K) (v : V) (d : Dict K V) → All P d → get k d ≡ some v → P (k, v)
  All-get P k v [] h found = absurd (cc)
  All-get P k v ((j, w) ∷ d) h found = elim (Bool-cases (e.same j k)) [
    | inl same ↦ subst P (ground (arith, (e.same_iff j k).0 same)) h.0
    | inr other ↦ All-get P k v d h.1 (rw other at found)
  ]
