-- ===== src/Json/Quote.antt =====
-- `toJSON` and `fromJSON` of `GetQuoteRequest`, `GetQuoteResponse`, `ShipOrderRequest`,
-- `ShipOrderResponse` in src/frontend/protos/demo.ts.
pub mod RoundTrip
use opentelemetry_demo_mb3r.Prelude.{String, Option, some, List, [], ◌∷◌}
use opentelemetry_demo_mb3r.Proto.{
  GetQuoteRequest, GetQuoteResponse, ShipOrderRequest, ShipOrderResponse,
}
use opentelemetry_demo_mb3r.Json.{
  Json, object, Conversions, first_set, first_array, with_fields, ◌>>=◌, as_text, as_message,
  as_messages, text_value, message_value, messages_value, fields_of,
}
use opentelemetry_demo_mb3r.Json.Order.{from_json_address, to_json_address}
use opentelemetry_demo_mb3r.Json.Cart.{from_json_cart_item, to_json_cart_item}
use opentelemetry_demo_mb3r.Json.Money.{from_json_money, to_json_money}

abbrev pub get_quote_request_fields : GetQuoteRequest → List (String × Option Json)
get_quote_request_fields m =
    ("address", message_value to_json_address m.address)
    ∷ ("items", messages_value to_json_cart_item m.items)
    ∷ []

unfoldable pub to_json_get_quote_request : GetQuoteRequest → Json
to_json_get_quote_request m = object (fields_of (get_quote_request_fields m))

abbrev pub get_quote_response_fields : GetQuoteResponse → List (String × Option Json)
get_quote_response_fields m = ("costUsd", message_value to_json_money m.cost_usd) ∷ []

unfoldable pub to_json_get_quote_response : GetQuoteResponse → Json
to_json_get_quote_response m = object (fields_of (get_quote_response_fields m))

abbrev pub ship_order_request_fields : ShipOrderRequest → List (String × Option Json)
ship_order_request_fields m =
    ("address", message_value to_json_address m.address)
    ∷ ("items", messages_value to_json_cart_item m.items)
    ∷ []

unfoldable pub to_json_ship_order_request : ShipOrderRequest → Json
to_json_ship_order_request m = object (fields_of (ship_order_request_fields m))

abbrev pub ship_order_response_fields : ShipOrderResponse → List (String × Option Json)
ship_order_response_fields m = ("trackingId", text_value m.tracking_id) ∷ []

unfoldable pub to_json_ship_order_response : ShipOrderResponse → Json
to_json_ship_order_response m = object (fields_of (ship_order_response_fields m))

module _ (c : Conversions) where
  abbrev pub read_json_get_quote_request : (String → Option Json) → Option GetQuoteRequest
  read_json_get_quote_request look =
      as_message (from_json_address c) (first_set ("address" ∷ []) look) >>= λ address.
      as_messages (from_json_cart_item c) (first_array ("items" ∷ []) look) >>= λ items.
      some record { address = address; items = items }

  unfoldable pub from_json_get_quote_request : Json → Option (GetQuoteRequest)
  from_json_get_quote_request = with_fields read_json_get_quote_request

  abbrev pub read_json_get_quote_response : (String → Option Json) → Option GetQuoteResponse
  read_json_get_quote_response look =
      as_message (from_json_money c) (first_set ("costUsd" ∷ "cost_usd" ∷ []) look) >>= λ cost_usd.
      some record { cost_usd = cost_usd }

  unfoldable pub from_json_get_quote_response : Json → Option (GetQuoteResponse)
  from_json_get_quote_response = with_fields read_json_get_quote_response

  abbrev pub read_json_ship_order_request : (String → Option Json) → Option ShipOrderRequest
  read_json_ship_order_request look =
      as_message (from_json_address c) (first_set ("address" ∷ []) look) >>= λ address.
      as_messages (from_json_cart_item c) (first_array ("items" ∷ []) look) >>= λ items.
      some record { address = address; items = items }

  unfoldable pub from_json_ship_order_request : Json → Option (ShipOrderRequest)
  from_json_ship_order_request = with_fields read_json_ship_order_request

  abbrev pub read_json_ship_order_response : (String → Option Json) → Option ShipOrderResponse
  read_json_ship_order_response look =
      some record { tracking_id = as_text c (first_set ("trackingId" ∷ "tracking_id" ∷ []) look) }

  unfoldable pub from_json_ship_order_response : Json → Option (ShipOrderResponse)
  from_json_ship_order_response = with_fields read_json_ship_order_response
