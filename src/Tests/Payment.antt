-- ===== src/Tests/Payment.antt =====
-- The payment service, at concrete requests.
use opentelemetry_demo_mb3r.Prelude.{
  pos, ◌+ℤ◌, ◌*ℤ◌, String, ◌≡◌, ◌↔◌, refl, true, false, none, some, [], arith,
}
use opentelemetry_demo_mb3r.Payment.{
  CardDetails, Card, ChargeRequest, Surroundings, returned, threw, charge, charge_service_handler,
  is_expired, expired_card, invalid_token, last_four,
}
use opentelemetry_demo_mb3r.Payment.Accepted.{IsUp, IsPayable, charge_service_handler_lem}
use opentelemetry_demo_mb3r.Payment.Expiry.{IsBefore, is_expired_lem}
use opentelemetry_demo_mb3r.Payment.Refused.{charge_threw}

abbrev all_visa : String → CardDetails
all_visa number = record { card_type = "visa"; valid = true }

abbrev january_2026 : Surroundings
january_2026 = record {
  provider_failure = none;
  is_variant_positive = false;
  is_draw_below = false;
  current_month = 1;
  current_year = 2026;
  transaction_id = "T1";
  loyalty_draw = 2;
  synthetic_request = none;
}

abbrev card_of : Card
card_of = record { number = some "4432801561520454"; year = some (pos 2030); month = some (pos 1) }

abbrev ten_euros : ChargeRequest
ten_euros = record {
  amount = some (record { currency_code = some "EUR" });
  credit_card = some card_of;
}

abbrev old_card : ChargeRequest
old_card = record ten_euros {
  credit_card = some (record card_of { year = some (pos 2025); month = some (pos 12) });
}

charge_service_handler_lem_example :
    (charge_service_handler all_visa january_2026 ten_euros ≡ returned "T1")
    ↔ IsUp january_2026
      × IsPayable all_visa january_2026 ten_euros
      × (january_2026.transaction_id ≡ "T1")
charge_service_handler_lem_example = charge_service_handler_lem all_visa january_2026 ten_euros "T1"

charged : charge_service_handler all_visa january_2026 ten_euros ≡ returned "T1"
unfolding charge_service_handler ◌+ℤ◌ ◌*ℤ◌
charged = refl

is_expired_lem_example :
    (is_expired 2026 1 (some (pos 2025)) (some (pos 12)) ≡ true)
    ↔ IsBefore (pos 2025) (pos 12) 2026 1
is_expired_lem_example =
    is_expired_lem (pos 2025) (pos 12) 2026 1 (omega arith) (omega arith) (omega arith)
      (omega arith)

old_card_refused :
    (charge all_visa january_2026 old_card).result ≡ threw (expired_card "0454" (pos 12) (pos 2025))
unfolding charge last_four ◌+ℤ◌ ◌*ℤ◌
old_card_refused = refl

charge_threw_example :
    ((charge all_visa january_2026 old_card).transactions ≡ [])
    × (((charge all_visa january_2026 old_card).span.is_ended ≡ true)
        ↔ (expired_card "0454" (pos 12) (pos 2025) ≡ invalid_token))
charge_threw_example =
    charge_threw all_visa january_2026 old_card (expired_card "0454" (pos 12) (pos 2025))
      old_card_refused

-- A card without a year never expires.
no_year : is_expired 2026 1 none (some (pos 1)) ≡ false
unfolding is_expired
no_year = refl
