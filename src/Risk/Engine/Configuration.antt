-- ===== src/Risk/Engine/Configuration.antt =====
-- Which engines `RiskEngine.__post_init__` builds.
use pmrp.Common.{
  ℕ, zero, suc, ◌≡◌, ◌↔◌, refl, sym, ap, subst, ◌∙◌, Bool, true, false, not, ◌&&◌, Option, none,
  some, List, [], ◌∷◌, arith, any_of, All, All-map, All-zip,
}
use pmrp.Common.Int.{ℤ, pos, negsuc}
use pmrp.Common.Text.{Text, text_eq}
use pmrp.Common.Result.{Result, ok, raise_if_inversion, bind_inversion, bind_value}
use pmrp.Risk.Types.{RiskError, OrderIntent, RiskRuleResult, is_empty}
use pmrp.Risk.Engine.{
  RiskRule, RiskEngine, rule_identity, same_identity, check_rules, freeze_rules, positive_ttl,
  configured_hash, make_engine,
}

abbrev pub is_usable_ttl : Option ℤ → Bool
is_usable_ttl none = true
is_usable_ttl (some (pos zero)) = false
is_usable_ttl (some (pos (suc n))) = true
is_usable_ttl (some (negsuc n)) = false

-- The time to live that the engine keeps of a usable one.
abbrev pub kept_ttl : Option ℤ → Option ℕ
kept_ttl none = none
kept_ttl (some (pos n)) = some n
kept_ttl (some (negsuc n)) = none

positive_ttl_iff :
    (ttl : Option ℤ)
    → (((t : Option ℕ) × (positive_ttl ttl ≡ ok t) × (t ≡ kept_ttl ttl))
        ↔ (is_usable_ttl ttl ≡ true))
positive_ttl_iff none = ((λ x. refl), λ x. (none, refl, refl))
positive_ttl_iff (some (pos zero)) = ((λ (t, x, _). ground (arith, x)), λ x. ground arith)
positive_ttl_iff (some (pos (suc n))) = ((λ x. refl), λ x. (some (suc n), refl, refl))
positive_ttl_iff (some (negsuc n)) = ((λ (t, x, _). ground (arith, x)), λ x. ground arith)

ttl-kept : (ttl : Option ℤ) (t : Option ℕ) → positive_ttl ttl ≡ ok t → t ≡ kept_ttl ttl
ttl-kept ttl t h = ground (arith, h)

module _ {X : Type 0} where
  -- The hash is the one given, if that is not empty, and that of the rules otherwise, which must
  -- then be returned.
  abbrev pub HasHash :
      (List (RiskRule X) → Option ℕ → Result RiskError Text)
      → List (RiskRule X)
      → Option ℕ
      → Option Text
      → Text
      → Type 0
  HasHash hash rs t none h = hash rs t ≡ ok h
  HasHash hash rs t (some d) h = (is_empty d ≡ false) × (h ≡ d)

  abbrev pub identity_of : RiskRule X → Text × Text
  identity_of r = (r.rule_id, r.version)

  -- A rule has a name and a version.
  abbrev pub is_identified : RiskRule X → Bool
  is_identified r = not (is_empty r.rule_id) && not (is_empty r.version)

  -- Every rule has a name and a version, and no two rules have the same pair.
  abbrev pub AllDistinct : List (RiskRule X) → Type 0
  AllDistinct [] = Unit
  AllDistinct (r ∷ rs) =
      (is_identified r ≡ true)
      × All (λ r'. same_identity (identity_of r') (identity_of r) ≡ false) rs
      × AllDistinct rs

  rule_identity_cases :
      (r : RiskRule X) (key : Text × Text)
      → rule_identity r ≡ ok key
      → (is_identified r ≡ true) × (key ≡ identity_of r)
  unfolding rule_identity
  rule_identity_cases r key h = ground arith

  check_rules_inversion :
      (seen : List (Text × Text)) (rs : List (RiskRule X))
      → check_rules seen rs ≡ ok tt
      → All (λ r. any_of (same_identity (identity_of r)) seen ≡ false) rs × AllDistinct rs
  check_rules_inversion seen [] h = (tt, tt)
  check_rules_inversion seen (r ∷ rs) h =
      let (key, named, rest) = bind_value (rule_identity r) _ h in
      let (i, e) = rule_identity_cases r key named in
      let a = raise_if_inversion (any_of (same_identity key) seen) _ _ rest in
      let (fresh, distinct) = check_rules_inversion (key ∷ seen) rs a.1 in
      let known = ap (λ (k : Text × Text). any_of (same_identity k) seen) (sym e) ∙ a.0 in
      (
        (known, All-map _ _ (λ r' x. later seen key (identity_of r') x) rs fresh),
        (
          i,
          All-map _ _
              (λ r' x.
                ap (same_identity (identity_of r')) (sym e) ∙ earlier seen key (identity_of r') x)
              rs fresh,
          distinct,
        ),
      )
    where
      later :
          (seen : List (Text × Text)) (key other : Text × Text)
          → any_of (same_identity other) (key ∷ seen) ≡ false
          → any_of (same_identity other) seen ≡ false
      later seen key other x = ground (arith, x)

      earlier :
          (seen : List (Text × Text)) (key other : Text × Text)
          → any_of (same_identity other) (key ∷ seen) ≡ false
          → same_identity other key ≡ false
      earlier seen key other x = ground (arith, x)

  identified_identity :
      (r : RiskRule X) → is_identified r ≡ true → rule_identity r ≡ ok (identity_of r)
  unfolding rule_identity
  identified_identity r h = ground (arith, h)

  check_rules_passes :
      (seen : List (Text × Text)) (rs : List (RiskRule X))
      → All (λ r. any_of (same_identity (identity_of r)) seen ≡ false) rs
      → AllDistinct rs
      → check_rules seen rs ≡ ok tt
  check_rules_passes seen [] f d = refl
  check_rules_passes seen (r ∷ rs) f d =
      rw (identified_identity r d.0, f.0)
        (check_rules_passes (identity_of r ∷ seen) rs
          (All-map _ _ (λ r' (x, y). both (identity_of r') x y) rs (All-zip _ _ rs d.1 f.1)) d.2)
    where
      both :
          (k : Text × Text)
          → same_identity k (identity_of r) ≡ false
          → any_of (same_identity k) seen ≡ false
          → any_of (same_identity k) (identity_of r ∷ seen) ≡ false
      both k x y = rw (x, y) refl

  freeze_rules_inversion :
      (rs rs' : List (RiskRule X))
      → freeze_rules rs ≡ ok rs'
      → (is_empty rs ≡ false) × AllDistinct rs × (rs' ≡ rs)
  unfolding freeze_rules
  freeze_rules_inversion rs rs' h =
      let a = raise_if_inversion (is_empty rs) _ _ h in
      let b = bind_inversion (check_rules [] rs) _ a.1 in
      (a.0, (check_rules_inversion [] rs b.0).1, ground (arith, b.1))

  freeze_rules_passes :
      (rs : List (RiskRule X)) → is_empty rs ≡ false → AllDistinct rs → freeze_rules rs ≡ ok rs
  unfolding freeze_rules
  freeze_rules_passes rs n d = rw (n, check_rules_passes [] rs (All_unit rs) d) refl
    where
      All_unit : (rs : List (RiskRule X)) → All (λ r. false ≡ false) rs
      All_unit [] = tt
      All_unit (r ∷ rs) = (refl, All_unit rs)

  hash_passes :
      (hash : List (RiskRule X) → Option ℕ → Result RiskError Text) (rs : List (RiskRule X))
      (t : Option ℕ) (digest : Option Text) (h : Text)
      → ((configured_hash hash rs t digest ≡ ok h) ↔ HasHash hash rs t digest h)
  hash_passes hash rs t none h = ((λ x. x), λ x. x)
  hash_passes hash rs t (some []) h = ((λ x. ground (arith, x)), λ x. ground (arith, x))
  hash_passes hash rs t (some (c ∷ s)) h = ((λ x. (refl, ground (arith, x))), λ x. ap ok (sym x.1))

  -- The engine is built just from rules, at least one, that all have a name and a version, no two
  -- the same, with a time to live that is absent or positive and a configuration hash that is not
  -- empty or, when it is absent, the hash of the rules, if that is returned; it then keeps the
  -- rules in their order and the hash.
  pub make_engine_iff :
      (hash : List (RiskRule X) → Option ℕ → Result RiskError Text)
      (generate : OrderIntent → ℕ → Text → Text → List RiskRuleResult → Text)
      (rs : List (RiskRule X)) (digest : Option Text) (ttl : Option ℤ)
      → (((e : RiskEngine X) × (make_engine hash generate rs digest ttl ≡ ok e)
            × (e.rules ≡ rs)
            × HasHash hash rs (kept_ttl ttl) digest e.configuration_hash)
          ↔ ((is_empty rs ≡ false)
              × AllDistinct rs
              × (is_usable_ttl ttl ≡ true)
              × ((h : Text) × HasHash hash rs (kept_ttl ttl) digest h)))
  unfolding make_engine
  make_engine_iff hash generate rs digest ttl = (
    (λ (e, h, kept, _).
        let (frozen, f, rest) = bind_value (freeze_rules rs) _ h in
        let (t, p, last) = bind_value (positive_ttl ttl) _ rest in
        let (d, g, _) = bind_value (configured_hash hash frozen t digest) _ last in
        let (some_rules, distinct, same) = freeze_rules_inversion rs frozen f in
        let e = ttl-kept ttl t p in
        (
          some_rules,
          distinct,
          (positive_ttl_iff ttl).0 (t, p, e),
          (
            d,
            subst (λ (u : Option ℕ). HasHash hash rs u digest d) e
                (subst (λ (xs : List (RiskRule X)). HasHash hash xs t digest d) same
                  ((hash_passes hash frozen t digest d).0 g)),
          ),
        )),
    λ (n, d, u, (h, v)).
        let (t, p, e) = (positive_ttl_iff ttl).1 u in
        let g =
          (hash_passes hash rs t digest h).1
            (subst (λ (x : Option ℕ). HasHash hash rs x digest h) (sym e) v) in
        (
          record {
            rules = rs;
            configuration_hash = h;
            approval_ttl = t;
            risk_decision_id = generate;
          },
          rw (freeze_rules_passes rs n d, p, g) refl,
          refl,
          v,
        ),
  )
