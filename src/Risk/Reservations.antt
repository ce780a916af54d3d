-- ===== src/Risk/Reservations.antt =====
-- Capital reservations (risk/reservations.py). The generator of their identifiers is a parameter.
-- A notional is a quantity times a price, in units of a quantity's unit times a price's.
pub mod Cover
use pmrp.Common.{
  ℕ, ◌*◌, Bool, true, false, not, ◌&&◌, ◌||◌, Option, none, some, List, [], ◌∷◌, ltb, leb, nat_eqb,
  length,
}
use pmrp.Common.Fields.{is_currency}
use pmrp.Common.Text.{Text}
use pmrp.Common.Result.{Result, ok, raise, ◌>>=◌, ◌>>◌, raise_if}
use pmrp.Risk.Types.{
  RiskError, approval_expiry_missing, reservation_id_empty, reservation_id_too_long,
  quantity_not_positive, notional_not_positive, active_with_release, released_without_time,
  released_too_early, currency_invalid, expires_too_early, is_none, is_empty, OrderIntent,
  RiskDecision,
}
use pmrp.Risk.Approvals.{validate_approval_pair, approved_values}

pub data ExchangeName : Type 0 where
  kalshi polymarket : ExchangeName

-- `CapitalReservationStatus`
pub data ReservationStatus : Type 0 where
  active released expired : ReservationStatus

pub record CapitalReservation : Type 0 where
  pub reservation_id : Text
  pub intent_id : Text
  pub strategy_id : Text
  pub exchange : ExchangeName
  pub account_id : Text
  pub market_id : Text
  pub quantity : ℕ
  pub notional : ℕ
  pub currency : Text
  pub status : ReservationStatus
  pub created_at : ℕ
  pub expires_at : ℕ
  pub released_at : Option ℕ

-- `_validate_reservation_id`
abbrev pub validate_reservation_id : Text → Result RiskError (Unit {0})
validate_reservation_id s = do
  raise_if (is_empty s) reservation_id_empty
  raise_if (ltb 128 (length s)) reservation_id_too_long

abbrev pub is_active : ReservationStatus → Bool
is_active active = true
is_active _ = false

-- `released_at is not None and released_at < created_at`
abbrev pub released_before : Option ℕ → ℕ → Bool
released_before none created = false
released_before (some t) created = ltb t created

-- `CapitalReservation.__post_init__`
unfoldable pub make_reservation : CapitalReservation → Result RiskError CapitalReservation
make_reservation r = do
  validate_reservation_id r.reservation_id
  raise_if (nat_eqb r.quantity 0) quantity_not_positive
  raise_if (nat_eqb r.notional 0) notional_not_positive
  raise_if (leb r.expires_at r.created_at) expires_too_early
  raise_if (is_active r.status && not (is_none r.released_at)) active_with_release
  raise_if (not (is_active r.status) && is_none r.released_at) released_without_time
  raise_if (released_before r.released_at r.created_at) released_too_early
  raise_if (not (is_currency r.currency)) currency_invalid
  ok r

-- `_validate_reservation_pair`, which makes the checks of `_validate_approval_pair`.
abbrev pub validate_reservation_pair : OrderIntent → RiskDecision → Result RiskError (Unit {0})
validate_reservation_pair = validate_approval_pair

-- `decision.approval_expires_at`, which must be present.
abbrev pub required_expiry : Option ℕ → Result RiskError ℕ
required_expiry none = raise approval_expiry_missing
required_expiry (some t) = ok t

-- The reservation that `build` passes to the constructor.
abbrev pub reservation_of :
    OrderIntent → RiskDecision → ExchangeName → Text → Text → ℕ × ℕ → ℕ → Text → CapitalReservation
reservation_of i d exchange account currency (quantity, price) expires_at id = record {
  reservation_id = id;
  intent_id = i.intent_id;
  strategy_id = i.strategy_id;
  exchange = exchange;
  account_id = account;
  market_id = i.market_id;
  quantity = quantity;
  notional = quantity * price;
  currency = currency;
  status = active;
  created_at = d.evaluated_at;
  expires_at = expires_at;
  released_at = none;
}

-- `CapitalReservationFactory.build`
unfoldable pub build_capital_reservation :
    (OrderIntent → RiskDecision → ExchangeName → Text → Text → Text)
    → OrderIntent
    → RiskDecision
    → ExchangeName
    → Text
    → Text
    → Result RiskError CapitalReservation
build_capital_reservation generate i d exchange account currency = do
  validate_reservation_pair i d
  raise_if (not (is_currency currency)) currency_invalid
  values ← approved_values d.approved_quantity d.approved_limit_price
  expires_at ← required_expiry d.approval_expires_at
  let id = generate i d exchange account currency
  validate_reservation_id id
  make_reservation (reservation_of i d exchange account currency values expires_at id)
