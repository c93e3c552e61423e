-- ===== src/Json/Confirmation/RoundTrip.antt =====
-- What `toJSON` writes of `SendOrderConfirmationRequest`, `fromJSON` reads back.
use opentelemetry_demo_mb3r.Prelude.{◌≡◌, refl, ap, ◌∙◌, some}
use opentelemetry_demo_mb3r.Proto.{SendOrderConfirmationRequest}
use opentelemetry_demo_mb3r.Json.{Conversions}
use opentelemetry_demo_mb3r.Json.Fields.{
  get-fields_of, as_text-text_value, as_message-message_value,
}
use opentelemetry_demo_mb3r.Json.Confirmation.{
  from_json_send_order_confirmation_request, to_json_send_order_confirmation_request,
  read_json_send_order_confirmation_request, send_order_confirmation_request_fields,
}
use opentelemetry_demo_mb3r.Json.Order.{from_json_order_result, to_json_order_result}
use opentelemetry_demo_mb3r.Json.Order.RoundTrip.{from_json_order_result-to_json_order_result}

pub from_json_send_order_confirmation_request-to_json_send_order_confirmation_request :
    (c : Conversions) (m : SendOrderConfirmationRequest)
    → from_json_send_order_confirmation_request c (to_json_send_order_confirmation_request m)
      ≡ some m
unfolding from_json_send_order_confirmation_request to_json_send_order_confirmation_request
    to_json_order_result
from_json_send_order_confirmation_request-to_json_send_order_confirmation_request c m =
    ap (read_json_send_order_confirmation_request c)
      (get-fields_of (send_order_confirmation_request_fields m))
    ∙ rw
        (
          as_text-text_value c m.email,
          as_message-message_value (from_json_order_result c) to_json_order_result
              (from_json_order_result-to_json_order_result c) (λ m. tt) m.order,
        )
        refl
