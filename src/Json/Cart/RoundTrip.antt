-- ===== src/Json/Cart/RoundTrip.antt =====
-- What `toJSON` writes of `CartItem`, `EmptyCartRequest`, `GetCartRequest`, `Empty`,
-- `AddItemRequest`, `Cart`, `fromJSON` reads back.
use opentelemetry_demo_mb3r.Prelude.{◌≡◌, refl, ap, ◌∙◌, some}
use opentelemetry_demo_mb3r.Proto.{AddItemRequest, Cart, CartItem, EmptyCartRequest, GetCartRequest}
use opentelemetry_demo_mb3r.Json.{Conversions}
use opentelemetry_demo_mb3r.Json.Fields.{
  get-fields_of, as_text-text_value, as_number-number_value, as_message-message_value,
  as_messages-messages_value,
}
use opentelemetry_demo_mb3r.Json.Cart.{
  from_json_cart_item, to_json_cart_item, read_json_cart_item, cart_item_fields,
  from_json_empty_cart_request, to_json_empty_cart_request, read_json_empty_cart_request,
  empty_cart_request_fields, from_json_get_cart_request, to_json_get_cart_request,
  read_json_get_cart_request, get_cart_request_fields, from_json_empty, to_json_empty,
  from_json_add_item_request, to_json_add_item_request, read_json_add_item_request,
  add_item_request_fields, from_json_cart, to_json_cart, read_json_cart, cart_fields,
}

pub from_json_cart_item-to_json_cart_item :
    (c : Conversions) (m : CartItem) → from_json_cart_item c (to_json_cart_item m) ≡ some m
unfolding from_json_cart_item to_json_cart_item
from_json_cart_item-to_json_cart_item c m =
    ap (read_json_cart_item c) (get-fields_of (cart_item_fields m))
    ∙ rw (as_text-text_value c m.product_id, as_number-number_value c m.quantity) refl

pub from_json_empty_cart_request-to_json_empty_cart_request :
    (c : Conversions) (m : EmptyCartRequest)
    → from_json_empty_cart_request c (to_json_empty_cart_request m) ≡ some m
unfolding from_json_empty_cart_request to_json_empty_cart_request
from_json_empty_cart_request-to_json_empty_cart_request c m =
    ap (read_json_empty_cart_request c) (get-fields_of (empty_cart_request_fields m))
    ∙ rw (as_text-text_value c m.user_id) refl

pub from_json_get_cart_request-to_json_get_cart_request :
    (c : Conversions) (m : GetCartRequest)
    → from_json_get_cart_request c (to_json_get_cart_request m) ≡ some m
unfolding from_json_get_cart_request to_json_get_cart_request
from_json_get_cart_request-to_json_get_cart_request c m =
    ap (read_json_get_cart_request c) (get-fields_of (get_cart_request_fields m))
    ∙ rw (as_text-text_value c m.user_id) refl

pub from_json_empty-to_json_empty :
    (c : Conversions) (m : Unit {0}) → from_json_empty c (to_json_empty m) ≡ some m
unfolding from_json_empty to_json_empty
from_json_empty-to_json_empty c m = refl

pub from_json_add_item_request-to_json_add_item_request :
    (c : Conversions) (m : AddItemRequest)
    → from_json_add_item_request c (to_json_add_item_request m) ≡ some m
unfolding from_json_add_item_request to_json_add_item_request to_json_cart_item
from_json_add_item_request-to_json_add_item_request c m =
    ap (read_json_add_item_request c) (get-fields_of (add_item_request_fields m))
    ∙ rw
        (
          as_text-text_value c m.user_id,
          as_message-message_value (from_json_cart_item c) to_json_cart_item
              (from_json_cart_item-to_json_cart_item c) (λ m. tt) m.item,
        )
        refl

pub from_json_cart-to_json_cart :
    (c : Conversions) (m : Cart) → from_json_cart c (to_json_cart m) ≡ some m
unfolding from_json_cart to_json_cart to_json_cart_item
from_json_cart-to_json_cart c m =
    ap (read_json_cart c) (get-fields_of (cart_fields m))
    ∙ rw
        (
          as_text-text_value c m.user_id,
          as_messages-messages_value (from_json_cart_item c) to_json_cart_item
              (from_json_cart_item-to_json_cart_item c) m.items,
        )
        refl
