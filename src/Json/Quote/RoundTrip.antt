-- ===== src/Json/Quote/RoundTrip.antt =====
-- What `toJSON` writes of `GetQuoteRequest`, `GetQuoteResponse`, `ShipOrderRequest`,
-- `ShipOrderResponse`, `fromJSON` reads back.
use opentelemetry_demo_mb3r.Prelude.{◌≡◌, refl, ap, ◌∙◌, some}
use opentelemetry_demo_mb3r.Proto.{
  GetQuoteRequest, GetQuoteResponse, ShipOrderRequest, ShipOrderResponse,
}
use opentelemetry_demo_mb3r.Json.{Conversions}
use opentelemetry_demo_mb3r.Json.Fields.{
  get-fields_of, as_text-text_value, as_message-message_value, as_messages-messages_value,
}
use opentelemetry_demo_mb3r.Json.Quote.{
  from_json_get_quote_request, to_json_get_quote_request, read_json_get_quote_request,
  get_quote_request_fields, from_json_get_quote_response, to_json_get_quote_response,
  read_json_get_quote_response, get_quote_response_fields, from_json_ship_order_request,
  to_json_ship_order_request, read_json_ship_order_request, ship_order_request_fields,
  from_json_ship_order_response, to_json_ship_order_response, read_json_ship_order_response,
  ship_order_response_fields,
}
use opentelemetry_demo_mb3r.Json.Order.{from_json_address, to_json_address}
use opentelemetry_demo_mb3r.Json.Cart.{from_json_cart_item, to_json_cart_item}
use opentelemetry_demo_mb3r.Json.Money.{from_json_money, to_json_money}
use opentelemetry_demo_mb3r.Json.Order.RoundTrip.{from_json_address-to_json_address}
use opentelemetry_demo_mb3r.Json.Cart.RoundTrip.{from_json_cart_item-to_json_cart_item}
use opentelemetry_demo_mb3r.Json.Money.RoundTrip.{from_json_money-to_json_money}

pub from_json_get_quote_request-to_json_get_quote_request :
    (c : Conversions) (m : GetQuoteRequest)
    → from_json_get_quote_request c (to_json_get_quote_request m) ≡ some m
unfolding from_json_get_quote_request to_json_get_quote_request to_json_address to_json_cart_item
from_json_get_quote_request-to_json_get_quote_request c m =
    ap (read_json_get_quote_request c) (get-fields_of (get_quote_request_fields m))
    ∙ rw
        (
          as_message-message_value (from_json_address c) to_json_address
              (from_json_address-to_json_address c) (λ m. tt) m.address,
          as_messages-messages_value (from_json_cart_item c) to_json_cart_item
              (from_json_cart_item-to_json_cart_item c) m.items,
        )
        refl

pub from_json_get_quote_response-to_json_get_quote_response :
    (c : Conversions) (m : GetQuoteResponse)
    → from_json_get_quote_response c (to_json_get_quote_response m) ≡ some m
unfolding from_json_get_quote_response to_json_get_quote_response to_json_money
from_json_get_quote_response-to_json_get_quote_response c m =
    ap (read_json_get_quote_response c) (get-fields_of (get_quote_response_fields m))
    ∙ rw
        (as_message-message_value (from_json_money c) to_json_money
          (from_json_money-to_json_money c) (λ m. tt) m.cost_usd)
        refl

pub from_json_ship_order_request-to_json_ship_order_request :
    (c : Conversions) (m : ShipOrderRequest)
    → from_json_ship_order_request c (to_json_ship_order_request m) ≡ some m
unfolding from_json_ship_order_request to_json_ship_order_request to_json_address to_json_cart_item
from_json_ship_order_request-to_json_ship_order_request c m =
    ap (read_json_ship_order_request c) (get-fields_of (ship_order_request_fields m))
    ∙ rw
        (
          as_message-message_value (from_json_address c) to_json_address
              (from_json_address-to_json_address c) (λ m. tt) m.address,
          as_messages-messages_value (from_json_cart_item c) to_json_cart_item
              (from_json_cart_item-to_json_cart_item c) m.items,
        )
        refl

pub from_json_ship_order_response-to_json_ship_order_response :
    (c : Conversions) (m : ShipOrderResponse)
    → from_json_ship_order_response c (to_json_ship_order_response m) ≡ some m
unfolding from_json_ship_order_response to_json_ship_order_response
from_json_ship_order_response-to_json_ship_order_response c m =
    ap (read_json_ship_order_response c) (get-fields_of (ship_order_response_fields m))
    ∙ rw (as_text-text_value c m.tracking_id) refl
