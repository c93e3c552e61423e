-- ===== src/Payment.antt =====
-- The payment service: `charge` of src/payment/charge.js, and `chargeServiceHandler` of
-- src/payment/index.js. The card validator is that of simple-card-validator, a parameter. A field
-- that a request does not have is `none`: the loader of the messages leaves it undefined. The logger
-- is left out.
pub mod Accepted
pub mod Expiry
pub mod Refused
use Prim.Native.String
use opentelemetry_demo_mb3r.Prelude.{
  ℕ, zero, suc, ◌+◌, ◌*◌, ℤ, pos, pos_part, neg_part, ◌+ℤ◌, ◌*ℤ◌, String, Bool, true, false, ◌&&◌,
  ◌||◌, not, Option, none, some, List, [], ◌∷◌, ltb, if◌then◌else◌, ◌==◌,
}

-- What the validator says of a number: `getCardDetails()`.
pub record CardDetails : Type 0 where
  pub card_type : String
  pub valid : Bool

-- The fields of `request.creditCard` that are read.
pub record Card : Type 0 where
  pub number : Option String
  pub year : Option ℤ
  pub month : Option ℤ

-- `request.amount`; the units and nanos are only logged.
pub record Amount : Type 0 where
  pub currency_code : Option String

pub record ChargeRequest : Type 0 where
  pub amount : Option Amount
  pub credit_card : Option Card

-- What a charge finds: the exception of the flag provider, if it has one; whether
-- `numberVariant > 0` and whether `Math.random() < numberVariant`; the month and the year; the new
-- identifier; the draw of the loyalty level; and the `synthetic_request` of the baggage.
pub record Surroundings : Type 0 where
  pub provider_failure : Option String
  pub is_variant_positive : Bool
  pub is_draw_below : Bool
  pub current_month : ℕ
  pub current_year : ℕ
  pub transaction_id : String
  pub loyalty_draw : ℕ
  pub synthetic_request : Option String

-- What `charge` throws. `type_error` is the reading of a field of an undefined value.
pub data ChargeError : Type 0 where
  provider_failed : String → ChargeError
  invalid_token invalid_card type_error : ChargeError
  unaccepted_card : String → ChargeError
  expired_card : String → ℤ → ℤ → ChargeError

pub data ChargeResult : Type 0 where
  threw : ChargeError → ChargeResult
  returned : String → ChargeResult

-- The attributes of the span `charge`, and whether it was ended.
pub record Span : Type 0 where
  pub card_type : Option String
  pub card_valid : Option Bool
  pub loyalty_level : Option String
  pub charged : Option Bool
  pub is_ended : Bool

-- The result, the span, and what was added to the counter of transactions: their currencies.
pub record Charge : Type 0 where
  pub result : ChargeResult
  pub span : Span
  pub transactions : List (Option String)

abbrev pub new_span : Span
new_span = record {
  card_type = none;
  card_valid = none;
  loyalty_level = none;
  charged = none;
  is_ended = false;
}

abbrev pub refuse : ChargeError → Span → Charge
refuse e span = record { result = threw e; span = span; transactions = [] }

abbrev pub loyalty_levels : List String
loyalty_levels = "platinum" ∷ "gold" ∷ "silver" ∷ "bronze" ∷ []

-- `random(arr)`, where the draw is `Math.floor(Math.random() * arr.length)`.
unfoldable pub random : List String → ℕ → Option String
random [] n = none
random (x ∷ xs) zero = some x
random (x ∷ xs) (suc n) = random xs n

abbrev pub size : String → ℕ
size String.[] = 0
size (String.◌∷◌ c s) = suc (size s)

-- `number.substr(-4)`, of a text whose characters are one code unit each.
unfoldable pub last_four : String → String
last_four String.[] = ""
last_four (String.◌∷◌ c s) =
    let rest = last_four s in if ltb 3 (size s) then rest else String.◌∷◌ c s

abbrev pub is_accepted : String → Bool
is_accepted card_type = card_type == "visa" || card_type == "mastercard"

abbrev pub is_less : ℤ → ℤ → Bool
is_less a b = ltb (pos_part a + neg_part b) (pos_part b + neg_part a)

-- `(currentYear * 12 + currentMonth) > (year * 12 + month)`; a year or month that is undefined makes
-- the right side NaN.
unfoldable pub is_expired : ℕ → ℕ → Option ℤ → Option ℤ → Bool
is_expired current_year current_month (some year) (some month) =
    is_less (year *ℤ pos 12 +ℤ month) (pos (current_year * 12 + current_month))
is_expired current_year current_month (some year) none = false
is_expired current_year current_month none month = false

-- The error message has the year and month; the check has not failed where one is undefined.
abbrev pub expired : String → Option ℤ → Option ℤ → ChargeError
expired number (some year) (some month) = expired_card (last_four number) month year
expired number _ _ = type_error

-- `baggage.getEntry('synthetic_request').value === 'true'`.
abbrev pub is_synthetic : Option String → Bool
is_synthetic none = false
is_synthetic (some value) = value == "true"

-- The charge after the checks.
unfoldable pub complete : Surroundings → Span → Option Amount → Charge
complete env span none = refuse type_error span
complete env span (some amount) = record {
  result = returned env.transaction_id;
  span = record span { is_ended = true };
  transactions = amount.currency_code ∷ [];
}

abbrev pub gold_span : Span
gold_span = record new_span { loyalty_level = some "gold"; is_ended = true }

-- `await OpenFeature.setProviderAndWait(flagProvider)`.
abbrev pub after_provider : Option String → Charge → Charge
after_provider (some e) c = refuse (provider_failed e) new_span
after_provider none c = c

-- The flag `paymentFailure`.
abbrev pub after_flag : Bool → Charge → Charge
after_flag true c = refuse invalid_token gold_span
after_flag false c = c

module _ (validate : String → CardDetails) (env : Surroundings) where
  abbrev pub checked_span : CardDetails → Span
  checked_span details = record new_span {
    card_type = some details.card_type;
    card_valid = some details.valid;
    loyalty_level = random loyalty_levels env.loyalty_draw;
  }

  unfoldable pub check_card : Option Amount → Card → String → Charge
  unfolding is_expired complete
  check_card amount card number =
      let details = validate number in
      let span = checked_span details in
      if not details.valid
      then refuse invalid_card span
      else if not (is_accepted details.card_type)
      then refuse (unaccepted_card details.card_type) span
      else if is_expired env.current_year env.current_month card.year card.month
      then refuse (expired number card.year card.month) span
      else complete env (record span { charged = some (not (is_synthetic env.synthetic_request)) })
          amount

  abbrev pub charge_number : Option Amount → Card → Option String → Charge
  charge_number amount card none = refuse type_error new_span
  charge_number amount card (some number) = check_card amount card number

  abbrev pub charge_card : Option Amount → Option Card → Charge
  charge_card amount none = refuse type_error new_span
  charge_card amount (some card) = charge_number amount card card.number

  unfoldable pub charge : ChargeRequest → Charge
  unfolding check_card
  charge req = after_provider env.provider_failure (
      after_flag (env.is_variant_positive && env.is_draw_below)
        (charge_card req.amount req.credit_card))

  -- What the callback is given, and the exceptions that the active span records. The handler reads
  -- the amount first.
  abbrev pub handle_amount : ChargeRequest → Option Amount → ChargeResult
  handle_amount req none = threw type_error
  handle_amount req (some amount) = (charge req).result

  unfoldable pub charge_service_handler : ChargeRequest → ChargeResult
  unfolding charge
  charge_service_handler req = handle_amount req req.amount
