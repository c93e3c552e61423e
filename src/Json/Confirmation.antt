-- ===== src/Json/Confirmation.antt =====
-- `toJSON` and `fromJSON` of `SendOrderConfirmationRequest` in src/frontend/protos/demo.ts.
pub mod RoundTrip
use opentelemetry_demo_mb3r.Prelude.{String, Option, some, List, [], ◌∷◌}
use opentelemetry_demo_mb3r.Proto.{SendOrderConfirmationRequest}
use opentelemetry_demo_mb3r.Json.{
  Json, object, Conversions, first_set, with_fields, ◌>>=◌, as_text, as_message, text_value,
  message_value, fields_of,
}
use opentelemetry_demo_mb3r.Json.Order.{from_json_order_result, to_json_order_result}

abbrev pub send_order_confirmation_request_fields :
    SendOrderConfirmationRequest → List (String × Option Json)
send_order_confirmation_request_fields m =
    ("email", text_value m.email) ∷ ("order", message_value to_json_order_result m.order) ∷ []

unfoldable pub to_json_send_order_confirmation_request : SendOrderConfirmationRequest → Json
to_json_send_order_confirmation_request m =
    object (fields_of (send_order_confirmation_request_fields m))

module _ (c : Conversions) where
  abbrev pub read_json_send_order_confirmation_request :
      (String → Option Json) → Option SendOrderConfirmationRequest
  read_json_send_order_confirmation_request look =
      as_message (from_json_order_result c) (first_set ("order" ∷ []) look) >>= λ order.
      some record { email = as_text c (first_set ("email" ∷ []) look); order = order }

  unfoldable pub from_json_send_order_confirmation_request :
      Json → Option (SendOrderConfirmationRequest)
  from_json_send_order_confirmation_request = with_fields read_json_send_order_confirmation_request
