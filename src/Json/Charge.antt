-- ===== src/Json/Charge.antt =====
-- `toJSON` and `fromJSON` of `ChargeRequest`, `ChargeResponse` in src/frontend/protos/demo.ts.
pub mod RoundTrip
use opentelemetry_demo_mb3r.Prelude.{String, Option, some, List, [], ◌∷◌}
use opentelemetry_demo_mb3r.Proto.{ChargeRequest, ChargeResponse}
use opentelemetry_demo_mb3r.Json.{
  Json, object, Conversions, first_set, with_fields, ◌>>=◌, as_text, as_message, text_value,
  message_value, fields_of,
}
use opentelemetry_demo_mb3r.Json.Money.{from_json_money, to_json_money}
use opentelemetry_demo_mb3r.Json.Order.{from_json_credit_card_info, to_json_credit_card_info}

abbrev pub charge_request_fields : ChargeRequest → List (String × Option Json)
charge_request_fields m =
    ("amount", message_value to_json_money m.amount)
    ∷ ("creditCard", message_value to_json_credit_card_info m.credit_card)
    ∷ []

unfoldable pub to_json_charge_request : ChargeRequest → Json
to_json_charge_request m = object (fields_of (charge_request_fields m))

abbrev pub charge_response_fields : ChargeResponse → List (String × Option Json)
charge_response_fields m = ("transactionId", text_value m.transaction_id) ∷ []

unfoldable pub to_json_charge_response : ChargeResponse → Json
to_json_charge_response m = object (fields_of (charge_response_fields m))

module _ (c : Conversions) where
  abbrev pub read_json_charge_request : (String → Option Json) → Option ChargeRequest
  read_json_charge_request look =
      as_message (from_json_money c) (first_set ("amount" ∷ []) look) >>= λ amount.
      as_message (from_json_credit_card_info c) (first_set ("creditCard" ∷ "credit_card" ∷ []) look)
      >>= λ credit_card. some record { amount = amount; credit_card = credit_card }

  unfoldable pub from_json_charge_request : Json → Option (ChargeRequest)
  from_json_charge_request = with_fields read_json_charge_request

  abbrev pub read_json_charge_response : (String → Option Json) → Option ChargeResponse
  read_json_charge_response look = some record {
    transaction_id = as_text c (first_set ("transactionId" ∷ "transaction_id" ∷ []) look);
  }

  unfoldable pub from_json_charge_response : Json → Option (ChargeResponse)
  from_json_charge_response = with_fields read_json_charge_response
