-- ===== src/Json/Cart.antt =====
-- `toJSON` and `fromJSON` of `CartItem`, `EmptyCartRequest`, `GetCartRequest`, `Empty`,
-- `AddItemRequest`, `Cart` in src/frontend/protos/demo.ts.
pub mod RoundTrip
use opentelemetry_demo_mb3r.Prelude.{String, Option, some, List, [], ◌∷◌}
use opentelemetry_demo_mb3r.Proto.{AddItemRequest, Cart, CartItem, EmptyCartRequest, GetCartRequest}
use opentelemetry_demo_mb3r.Json.{
  Json, object, end, Conversions, first_set, first_array, with_fields, ◌>>=◌, as_text, as_number,
  as_message, as_messages, text_value, number_value, message_value, messages_value, fields_of,
}

abbrev pub cart_item_fields : CartItem → List (String × Option Json)
cart_item_fields m =
    ("productId", text_value m.product_id) ∷ ("quantity", number_value m.quantity) ∷ []

unfoldable pub to_json_cart_item : CartItem → Json
to_json_cart_item m = object (fields_of (cart_item_fields m))

abbrev pub empty_cart_request_fields : EmptyCartRequest → List (String × Option Json)
empty_cart_request_fields m = ("userId", text_value m.user_id) ∷ []

unfoldable pub to_json_empty_cart_request : EmptyCartRequest → Json
to_json_empty_cart_request m = object (fields_of (empty_cart_request_fields m))

abbrev pub get_cart_request_fields : GetCartRequest → List (String × Option Json)
get_cart_request_fields m = ("userId", text_value m.user_id) ∷ []

unfoldable pub to_json_get_cart_request : GetCartRequest → Json
to_json_get_cart_request m = object (fields_of (get_cart_request_fields m))

unfoldable pub to_json_empty : Unit {0} → Json
to_json_empty m = object end

abbrev pub add_item_request_fields : AddItemRequest → List (String × Option Json)
add_item_request_fields m =
    ("userId", text_value m.user_id) ∷ ("item", message_value to_json_cart_item m.item) ∷ []

unfoldable pub to_json_add_item_request : AddItemRequest → Json
to_json_add_item_request m = object (fields_of (add_item_request_fields m))

abbrev pub cart_fields : Cart → List (String × Option Json)
cart_fields m =
    ("userId", text_value m.user_id) ∷ ("items", messages_value to_json_cart_item m.items) ∷ []

unfoldable pub to_json_cart : Cart → Json
to_json_cart m = object (fields_of (cart_fields m))

module _ (c : Conversions) where
  abbrev pub read_json_cart_item : (String → Option Json) → Option CartItem
  read_json_cart_item look = as_number c (first_set ("quantity" ∷ []) look) >>= λ quantity.
      some record {
        product_id = as_text c (first_set ("productId" ∷ "product_id" ∷ []) look);
        quantity = quantity;
      }

  unfoldable pub from_json_cart_item : Json → Option (CartItem)
  from_json_cart_item = with_fields read_json_cart_item

  abbrev pub read_json_empty_cart_request : (String → Option Json) → Option EmptyCartRequest
  read_json_empty_cart_request look =
      some record { user_id = as_text c (first_set ("userId" ∷ "user_id" ∷ []) look) }

  unfoldable pub from_json_empty_cart_request : Json → Option (EmptyCartRequest)
  from_json_empty_cart_request = with_fields read_json_empty_cart_request

  abbrev pub read_json_get_cart_request : (String → Option Json) → Option GetCartRequest
  read_json_get_cart_request look =
      some record { user_id = as_text c (first_set ("userId" ∷ "user_id" ∷ []) look) }

  unfoldable pub from_json_get_cart_request : Json → Option (GetCartRequest)
  from_json_get_cart_request = with_fields read_json_get_cart_request

  unfoldable pub from_json_empty : Json → Option (Unit {0})
  from_json_empty _ = some tt

  abbrev pub read_json_add_item_request : (String → Option Json) → Option AddItemRequest
  read_json_add_item_request look =
      as_message from_json_cart_item (first_set ("item" ∷ []) look) >>= λ item.
      some record { user_id = as_text c (first_set ("userId" ∷ "user_id" ∷ []) look); item = item }

  unfoldable pub from_json_add_item_request : Json → Option (AddItemRequest)
  from_json_add_item_request = with_fields read_json_add_item_request

  abbrev pub read_json_cart : (String → Option Json) → Option Cart
  read_json_cart look =
      as_messages from_json_cart_item (first_array ("items" ∷ []) look) >>= λ items.
      some
        record { user_id = as_text c (first_set ("userId" ∷ "user_id" ∷ []) look); items = items }

  unfoldable pub from_json_cart : Json → Option (Cart)
  from_json_cart = with_fields read_json_cart
