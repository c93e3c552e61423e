-- ===== src/Json/Checkout/RoundTrip.antt =====
-- What `toJSON` writes of `PlaceOrderRequest`, `PlaceOrderResponse`, `fromJSON` reads back.
use opentelemetry_demo_mb3r.Prelude.{◌≡◌, refl, ap, ◌∙◌, some}
use opentelemetry_demo_mb3r.Proto.{PlaceOrderRequest, PlaceOrderResponse}
use opentelemetry_demo_mb3r.Json.{Conversions}
use opentelemetry_demo_mb3r.Json.Fields.{
  get-fields_of, as_text-text_value, as_message-message_value,
}
use opentelemetry_demo_mb3r.Json.Checkout.{
  from_json_place_order_request, to_json_place_order_request, read_json_place_order_request,
  place_order_request_fields, from_json_place_order_response, to_json_place_order_response,
  read_json_place_order_response, place_order_response_fields,
}
use opentelemetry_demo_mb3r.Json.Order.{from_json_address, to_json_address}
use opentelemetry_demo_mb3r.Json.Order.{from_json_credit_card_info, to_json_credit_card_info}
use opentelemetry_demo_mb3r.Json.Order.{from_json_order_result, to_json_order_result}
use opentelemetry_demo_mb3r.Json.Order.RoundTrip.{
  from_json_address-to_json_address, from_json_credit_card_info-to_json_credit_card_info,
  from_json_order_result-to_json_order_result,
}

pub from_json_place_order_request-to_json_place_order_request :
    (c : Conversions) (m : PlaceOrderRequest)
    → from_json_place_order_request c (to_json_place_order_request m) ≡ some m
unfolding from_json_place_order_request to_json_place_order_request to_json_address
    to_json_credit_card_info
from_json_place_order_request-to_json_place_order_request c m =
    ap (read_json_place_order_request c) (get-fields_of (place_order_request_fields m))
    ∙ rw
        (
          as_text-text_value c m.user_id,
          as_text-text_value c m.user_currency,
          as_message-message_value (from_json_address c) to_json_address
              (from_json_address-to_json_address c) (λ m. tt) m.address,
          as_text-text_value c m.email,
          as_message-message_value (from_json_credit_card_info c) to_json_credit_card_info
              (from_json_credit_card_info-to_json_credit_card_info c) (λ m. tt) m.credit_card,
        )
        refl

-- `fromJSON` reads back what `toJSON` writes of the answer to an order, with its order, the lines, the
-- prices and the address, whatever of these there is.
pub from_json_place_order_response-to_json_place_order_response :
    (c : Conversions) (m : PlaceOrderResponse)
    → from_json_place_order_response c (to_json_place_order_response m) ≡ some m
unfolding from_json_place_order_response to_json_place_order_response to_json_order_result
from_json_place_order_response-to_json_place_order_response c m =
    ap (read_json_place_order_response c) (get-fields_of (place_order_response_fields m))
    ∙ rw
        (as_message-message_value (from_json_order_result c) to_json_order_result
          (from_json_order_result-to_json_order_result c) (λ m. tt) m.order)
        refl
