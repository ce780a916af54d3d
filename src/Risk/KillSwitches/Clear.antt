-- ===== src/Risk/KillSwitches/Clear.antt =====
-- When the kill switches are clear: an independent description.
use pmrp.Common.{
  ℕ, ◌≡◌, refl, ap, inl, inr, Bool, true, false, not, ◌&&◌, ◌||◌, Option, none, some, List, [], ◌∷◌,
  arith, any_of, all_of, if◌then◌else◌, Bool-cases,
}
use pmrp.Common.Equality.{◌==◌, option_eq}
use pmrp.Common.Text.{Text, text_eq}
use pmrp.Common.Result.{ok, raise}
use pmrp.Risk.Types.{scope_id_missing, is_empty}
use pmrp.Risk.KillSwitches.{
  KillSwitchScope, global_scope, KillSwitchState, Subject, ClearState, scope_eqb, exchange, account,
  strategy, market, execution_gateway, matches_named, matches_subject, add_scope, collect_scopes,
  clear_state_for_subject,
}

abbrev pub is_missing : Option Text → Bool
is_missing none = true
is_missing (some id) = false

-- An active switch below the global scope has the identifier of its scope.
abbrev pub is_named : KillSwitchState → Bool
is_named k = not k.active || scope_eqb k.scope global_scope || not (is_missing k.scope_id)

-- A switch concerns every subject, or the one whose strategy, market, exchange, account or gateway
-- is the one that it names; a subject without the last three is not concerned by theirs.
abbrev pub matches_id : KillSwitchScope → Option Text → Subject → Bool
matches_id global_scope id s = true
matches_id strategy id s = id == some s.strategy_id
matches_id market id s = id == some s.market_id
matches_id exchange id s = not (is_missing s.exchange_id) && id == s.exchange_id
matches_id account id s = not (is_missing s.account_id) && id == s.account_id
matches_id execution_gateway id s =
    not (is_missing s.execution_gateway_id) && id == s.execution_gateway_id

-- An active switch that concerns the subject.
abbrev pub blocks : Subject → KillSwitchState → Bool
blocks s k = k.active && matches_id k.scope k.scope_id s

scope_eqb_lem : (x y : KillSwitchScope) → scope_eqb x y ≡ true → x ≡ y
scope_eqb_lem x y h = ground arith

any_of-add_scope :
    (x y : KillSwitchScope) (xs : List KillSwitchScope)
    → any_of (scope_eqb x) (add_scope y xs) ≡ (scope_eqb x y || any_of (scope_eqb x) xs)
any_of-add_scope x y xs = ground (
  arith,
  scope_eqb_lem x y,
  ap (λ (z : KillSwitchScope). any_of (scope_eqb z) xs) {x = x} {y = y},
)

is_empty-add_scope :
    (y : KillSwitchScope) (xs : List KillSwitchScope) → is_empty (add_scope y xs) ≡ false
is_empty-add_scope y [] = refl
is_empty-add_scope y (x ∷ xs) = ground arith

matches_subject_lem :
    (k : KillSwitchState) (s : Subject)
    → k.active ≡ true
    → is_named k ≡ true
    → matches_subject k s ≡ ok (matches_id k.scope k.scope_id s)
matches_subject_lem k s a n = named k.scope k.scope_id (ground (arith, a, n))
  where
    named :
        (scope : KillSwitchScope) (id : Option Text)
        → (scope_eqb scope global_scope || not (is_missing id)) ≡ true
        → (if scope_eqb scope global_scope then ok true else matches_named scope id s)
          ≡ ok (matches_id scope id s)
    named scope id h = ground arith

pub collect_scopes_lem :
    (found : List KillSwitchScope) (ks : List KillSwitchState) (s : Subject)
    → all_of is_named ks ≡ true
    → (xs : List KillSwitchScope) × (collect_scopes found ks s ≡ ok xs)
      × (is_empty xs ≡ (is_empty found && not (any_of (blocks s) ks)))
      × ((x : KillSwitchScope)
          → any_of (scope_eqb x) xs
            ≡ (any_of (scope_eqb x) found || any_of (λ k. blocks s k && scope_eqb x k.scope) ks))
collect_scopes_lem found [] s h = (found, refl, ground arith, λ x. ground arith)
collect_scopes_lem found (k ∷ ks) s h = elim (Bool-cases k.active) [
  | inr off ↦
      let (xs, ran, empty, found_there) = collect_scopes_lem found ks s (ground (arith, h)) in
      (xs, rw off ran, rw off empty, λ x. rw off (found_there x))
  | inl on ↦
      let hit = matches_subject_lem k s on (ground (arith, h)) in
      elim (Bool-cases (matches_id k.scope k.scope_id s)) [
        | inr away ↦
            let (xs, ran, empty, found_there) = collect_scopes_lem found ks s (ground (arith, h)) in
            (xs, rw (on, hit, away) ran, rw (on, away) empty, λ x. rw (on, away) (found_there x))
        | inl here ↦
            let (xs, ran, empty, found_there) =
              collect_scopes_lem (add_scope k.scope found) ks s (ground (arith, h)) in
            (
              xs,
              rw (on, hit, here) ran,
              rw (on, here) (ground (arith, empty, is_empty-add_scope k.scope found)),
              λ x. rw (on, here) (ground (arith, found_there x, any_of-add_scope x k.scope found)),
            )
      ]
]

unnamed_raises :
    (scope : KillSwitchScope) (id : Option Text) (s : Subject)
    → (scope_eqb scope global_scope || not (is_missing id)) ≡ false
    → (if scope_eqb scope global_scope then ok true else matches_named scope id s)
      ≡ raise scope_id_missing
unnamed_raises scope id s h = ground arith

collect_scopes_raises :
    (found : List KillSwitchScope) (ks : List KillSwitchState) (s : Subject)
    → all_of is_named ks ≡ false
    → collect_scopes found ks s ≡ raise scope_id_missing
collect_scopes_raises found [] s h = ground arith
collect_scopes_raises found (k ∷ ks) s h = elim (Bool-cases k.active) [
  | inr off ↦ rw off (collect_scopes_raises found ks s (ground (arith, h, off)))
  | inl on ↦ elim (Bool-cases (is_named k)) [
    | inl named ↦
        let rest : all_of is_named ks ≡ false = ground (arith, h, named) in
        rw (on, matches_subject_lem k s on named)
          (collect_scopes_raises
            (if matches_id k.scope k.scope_id s then add_scope k.scope found else found) ks s rest)
    | inr unnamed ↦ rw (on, unnamed_raises k.scope k.scope_id s (ground (arith, unnamed, on))) refl
  ]
]

-- If every active switch below the global scope names its target, the state is clear just when no
-- active switch concerns the subject, and otherwise it lists just the scopes of those that do; if
-- some does not, the call raises.
pub clear_state_lem :
    (ks : List KillSwitchState) (s : Subject) (t : ℕ)
    → (all_of is_named ks ≡ true
        → (c : ClearState) × (clear_state_for_subject ks s t ≡ ok c)
          × (c.clear ≡ not (any_of (blocks s) ks))
          × ((x : KillSwitchScope)
              → any_of (scope_eqb x) c.active_scopes
                ≡ any_of (λ k. blocks s k && scope_eqb x k.scope) ks))
      × (all_of is_named ks ≡ false → clear_state_for_subject ks s t ≡ raise scope_id_missing)
unfolding clear_state_for_subject
clear_state_lem ks s t = (
  (λ h.
      let (xs, ran, empty, scopes) = collect_scopes_lem [] ks s h in
      (
        record { clear = is_empty xs; observed_at = t; active_scopes = xs },
        rw ran refl,
        empty,
        scopes,
      )),
  λ h. rw (collect_scopes_raises [] ks s h) refl,
)
