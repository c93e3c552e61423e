-- ===== src/Json/Checkout.antt =====
-- `toJSON` and `fromJSON` of `PlaceOrderRequest`, `PlaceOrderResponse` in
-- src/frontend/protos/demo.ts.
pub mod RoundTrip
use opentelemetry_demo_mb3r.Prelude.{String, Option, some, List, [], ◌∷◌}
use opentelemetry_demo_mb3r.Proto.{PlaceOrderRequest, PlaceOrderResponse}
use opentelemetry_demo_mb3r.Json.{
  Json, object, Conversions, first_set, with_fields, ◌>>=◌, as_text, as_message, text_value,
  message_value, fields_of,
}
use opentelemetry_demo_mb3r.Json.Order.{from_json_address, to_json_address}
use opentelemetry_demo_mb3r.Json.Order.{from_json_credit_card_info, to_json_credit_card_info}
use opentelemetry_demo_mb3r.Json.Order.{from_json_order_result, to_json_order_result}

abbrev pub place_order_request_fields : PlaceOrderRequest → List (String × Option Json)
place_order_request_fields m =
    ("userId", text_value m.user_id)
    ∷ ("userCurrency", text_value m.user_currency)
    ∷ ("address", message_value to_json_address m.address)
    ∷ ("email", text_value m.email)
    ∷ ("creditCard", message_value to_json_credit_card_info m.credit_card)
    ∷ []

unfoldable pub to_json_place_order_request : PlaceOrderRequest → Json
to_json_place_order_request m = object (fields_of (place_order_request_fields m))

abbrev pub place_order_response_fields : PlaceOrderResponse → List (String × Option Json)
place_order_response_fields m = ("order", message_value to_json_order_result m.order) ∷ []

unfoldable pub to_json_place_order_response : PlaceOrderResponse → Json
to_json_place_order_response m = object (fields_of (place_order_response_fields m))

module _ (c : Conversions) where
  abbrev pub read_json_place_order_request : (String → Option Json) → Option PlaceOrderRequest
  read_json_place_order_request look =
      as_message (from_json_address c) (first_set ("address" ∷ []) look) >>= λ address.
      as_message (from_json_credit_card_info c) (first_set ("creditCard" ∷ "credit_card" ∷ []) look)
      >>= λ credit_card. some record {
        user_id = as_text c (first_set ("userId" ∷ "user_id" ∷ []) look);
        user_currency = as_text c (first_set ("userCurrency" ∷ "user_currency" ∷ []) look);
        address = address;
        email = as_text c (first_set ("email" ∷ []) look);
        credit_card = credit_card;
      }

  unfoldable pub from_json_place_order_request : Json → Option (PlaceOrderRequest)
  from_json_place_order_request = with_fields read_json_place_order_request

  abbrev pub read_json_place_order_response : (String → Option Json) → Option PlaceOrderResponse
  read_json_place_order_response look =
      as_message (from_json_order_result c) (first_set ("order" ∷ []) look) >>= λ order.
      some record { order = order }

  unfoldable pub from_json_place_order_response : Json → Option (PlaceOrderResponse)
  from_json_place_order_response = with_fields read_json_place_order_response
