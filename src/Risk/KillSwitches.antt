-- ===== src/Risk/KillSwitches.antt =====
-- The kill-switch state of an intent (risk/kill_switches.py), from the canonical switches of
-- schemas/risk.py.
pub mod Clear
use pmrp.Common.{
  ℕ, Bool, true, false, not, ◌&&◌, Option, none, some, List, [], ◌∷◌, any_of, if◌then◌else◌,
}
use pmrp.Common.Equality.{HasEq, ◌==◌}
use pmrp.Common.Text.{Text, text_eq}
use pmrp.Common.Result.{Result, ok, raise, ◌>>=◌}
use pmrp.Risk.Types.{RiskError, scope_id_missing, is_empty}

pub data KillSwitchScope : Type 0 where
  global_scope exchange account strategy market execution_gateway : KillSwitchScope

-- `KillSwitchState`, without its audit fields.
pub record KillSwitchState : Type 0 where
  pub kill_switch_id : Text
  pub scope : KillSwitchScope
  pub scope_id : Option Text
  pub active : Bool

-- `KillSwitchEvaluationSubject`
pub record Subject : Type 0 where
  pub strategy_id : Text
  pub market_id : Text
  pub exchange_id : Option Text
  pub account_id : Option Text
  pub execution_gateway_id : Option Text

-- `RiskKillSwitchClearState`, with its set of scopes as a list that repeats none.
pub record ClearState : Type 0 where
  pub clear : Bool
  pub observed_at : ℕ
  pub active_scopes : List KillSwitchScope

abbrev pub scope_eqb : KillSwitchScope → KillSwitchScope → Bool
scope_eqb global_scope global_scope = true
scope_eqb exchange exchange = true
scope_eqb account account = true
scope_eqb strategy strategy = true
scope_eqb market market = true
scope_eqb execution_gateway execution_gateway = true
scope_eqb _ _ = false

-- `subject_id is not None and scope_id == subject_id`
abbrev pub names : Text → Option Text → Bool
names scope_id none = false
names scope_id (some s) = scope_id == s

-- The tests of `_matches_subject` below the global scope.
abbrev pub matches_scope : KillSwitchScope → Text → Subject → Bool
matches_scope global_scope id s = true
matches_scope strategy id s = id == s.strategy_id
matches_scope market id s = id == s.market_id
matches_scope exchange id s = names id s.exchange_id
matches_scope account id s = names id s.account_id
matches_scope execution_gateway id s = names id s.execution_gateway_id

-- A scope below the global one needs an identifier.
abbrev pub matches_named : KillSwitchScope → Option Text → Subject → Result RiskError Bool
matches_named scope none s = raise scope_id_missing
matches_named scope (some id) s = ok (matches_scope scope id s)

-- `_matches_subject`
abbrev pub matches_subject : KillSwitchState → Subject → Result RiskError Bool
matches_subject k s =
    if scope_eqb k.scope global_scope then ok true else matches_named k.scope k.scope_id s

-- `set.add`
abbrev pub add_scope : KillSwitchScope → List KillSwitchScope → List KillSwitchScope
add_scope x xs = if any_of (scope_eqb x) xs then xs else x ∷ xs

-- The loop of `clear_state_for_subject`, with the scopes found.
abbrev pub collect_scopes :
    List KillSwitchScope → List KillSwitchState → Subject → Result RiskError (List KillSwitchScope)
collect_scopes found [] s = ok found
collect_scopes found (k ∷ ks) s = elim k.active [
  | false ↦ collect_scopes found ks s
  | true ↦ matches_subject k s >>= λ hit.
      collect_scopes (if hit then add_scope k.scope found else found) ks s
]

-- `KillSwitchClearStateFactory.clear_state_for_subject`
unfoldable pub clear_state_for_subject :
    List KillSwitchState → Subject → ℕ → Result RiskError ClearState
clear_state_for_subject ks s observed_at = do
  scopes ← collect_scopes [] ks s
  ok (record { clear = is_empty scopes; observed_at = observed_at; active_scopes = scopes })
