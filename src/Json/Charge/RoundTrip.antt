-- ===== src/Json/Charge/RoundTrip.antt =====
-- What `toJSON` writes of `ChargeRequest`, `ChargeResponse`, `fromJSON` reads back.
use opentelemetry_demo_mb3r.Prelude.{◌≡◌, refl, ap, ◌∙◌, some}
use opentelemetry_demo_mb3r.Proto.{ChargeRequest, ChargeResponse}
use opentelemetry_demo_mb3r.Json.{Conversions}
use opentelemetry_demo_mb3r.Json.Fields.{
  get-fields_of, as_text-text_value, as_message-message_value,
}
use opentelemetry_demo_mb3r.Json.Charge.{
  from_json_charge_request, to_json_charge_request, read_json_charge_request, charge_request_fields,
  from_json_charge_response, to_json_charge_response, read_json_charge_response,
  charge_response_fields,
}
use opentelemetry_demo_mb3r.Json.Money.{from_json_money, to_json_money}
use opentelemetry_demo_mb3r.Json.Order.{from_json_credit_card_info, to_json_credit_card_info}
use opentelemetry_demo_mb3r.Json.Money.RoundTrip.{from_json_money-to_json_money}
use opentelemetry_demo_mb3r.Json.Order.RoundTrip.{
  from_json_credit_card_info-to_json_credit_card_info,
}

pub from_json_charge_request-to_json_charge_request :
    (c : Conversions) (m : ChargeRequest)
    → from_json_charge_request c (to_json_charge_request m) ≡ some m
unfolding from_json_charge_request to_json_charge_request to_json_money to_json_credit_card_info
from_json_charge_request-to_json_charge_request c m =
    ap (read_json_charge_request c) (get-fields_of (charge_request_fields m))
    ∙ rw
        (
          as_message-message_value (from_json_money c) to_json_money
              (from_json_money-to_json_money c) (λ m. tt) m.amount,
          as_message-message_value (from_json_credit_card_info c) to_json_credit_card_info
              (from_json_credit_card_info-to_json_credit_card_info c) (λ m. tt) m.credit_card,
        )
        refl

pub from_json_charge_response-to_json_charge_response :
    (c : Conversions) (m : ChargeResponse)
    → from_json_charge_response c (to_json_charge_response m) ≡ some m
unfolding from_json_charge_response to_json_charge_response
from_json_charge_response-to_json_charge_response c m =
    ap (read_json_charge_response c) (get-fields_of (charge_response_fields m))
    ∙ rw (as_text-text_value c m.transaction_id) refl
