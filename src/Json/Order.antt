-- ===== src/Json/Order.antt =====
-- `toJSON` and `fromJSON` of `Address`, `CreditCardInfo`, `OrderItem`, `OrderResult` in
-- src/frontend/protos/demo.ts.
pub mod RoundTrip
use opentelemetry_demo_mb3r.Prelude.{String, Option, some, List, [], ◌∷◌}
use opentelemetry_demo_mb3r.Proto.{Address, CreditCardInfo, OrderItem, OrderResult}
use opentelemetry_demo_mb3r.Json.{
  Json, object, Conversions, first_set, first_array, with_fields, ◌>>=◌, as_text, as_number,
  as_message, as_messages, text_value, number_value, message_value, messages_value, fields_of,
}
use opentelemetry_demo_mb3r.Json.Cart.{from_json_cart_item, to_json_cart_item}
use opentelemetry_demo_mb3r.Json.Money.{from_json_money, to_json_money}

abbrev pub address_fields : Address → List (String × Option Json)
address_fields m =
    ("streetAddress", text_value m.street_address)
    ∷ ("city", text_value m.city)
    ∷ ("state", text_value m.state)
    ∷ ("country", text_value m.country)
    ∷ ("zipCode", text_value m.zip_code)
    ∷ []

unfoldable pub to_json_address : Address → Json
to_json_address m = object (fields_of (address_fields m))

abbrev pub credit_card_info_fields : CreditCardInfo → List (String × Option Json)
credit_card_info_fields m =
    ("creditCardNumber", text_value m.credit_card_number)
    ∷ ("creditCardCvv", number_value m.credit_card_cvv)
    ∷ ("creditCardExpirationYear", number_value m.credit_card_expiration_year)
    ∷ ("creditCardExpirationMonth", number_value m.credit_card_expiration_month)
    ∷ []

unfoldable pub to_json_credit_card_info : CreditCardInfo → Json
to_json_credit_card_info m = object (fields_of (credit_card_info_fields m))

abbrev pub order_item_fields : OrderItem → List (String × Option Json)
order_item_fields m =
    ("item", message_value to_json_cart_item m.item)
    ∷ ("cost", message_value to_json_money m.cost)
    ∷ []

unfoldable pub to_json_order_item : OrderItem → Json
to_json_order_item m = object (fields_of (order_item_fields m))

abbrev pub order_result_fields : OrderResult → List (String × Option Json)
order_result_fields m =
    ("orderId", text_value m.order_id)
    ∷ ("shippingTrackingId", text_value m.shipping_tracking_id)
    ∷ ("shippingCost", message_value to_json_money m.shipping_cost)
    ∷ ("shippingAddress", message_value to_json_address m.shipping_address)
    ∷ ("items", messages_value to_json_order_item m.items)
    ∷ []

unfoldable pub to_json_order_result : OrderResult → Json
to_json_order_result m = object (fields_of (order_result_fields m))

module _ (c : Conversions) where
  abbrev pub read_json_address : (String → Option Json) → Option Address
  read_json_address look = some record {
    street_address = as_text c (first_set ("streetAddress" ∷ "street_address" ∷ []) look);
    city = as_text c (first_set ("city" ∷ []) look);
    state = as_text c (first_set ("state" ∷ []) look);
    country = as_text c (first_set ("country" ∷ []) look);
    zip_code = as_text c (first_set ("zipCode" ∷ "zip_code" ∷ []) look);
  }

  unfoldable pub from_json_address : Json → Option (Address)
  from_json_address = with_fields read_json_address

  abbrev pub read_json_credit_card_info : (String → Option Json) → Option CreditCardInfo
  read_json_credit_card_info look =
      as_number c (first_set ("creditCardCvv" ∷ "credit_card_cvv" ∷ []) look) >>= λ credit_card_cvv.
      as_number c (first_set ("creditCardExpirationYear" ∷ "credit_card_expiration_year" ∷ []) look)
      >>= λ credit_card_expiration_year.
          as_number c
            (first_set ("creditCardExpirationMonth" ∷ "credit_card_expiration_month" ∷ []) look)
          >>= λ credit_card_expiration_month. some record {
            credit_card_number =
                as_text c (first_set ("creditCardNumber" ∷ "credit_card_number" ∷ []) look);
            credit_card_cvv = credit_card_cvv;
            credit_card_expiration_year = credit_card_expiration_year;
            credit_card_expiration_month = credit_card_expiration_month;
          }

  unfoldable pub from_json_credit_card_info : Json → Option (CreditCardInfo)
  from_json_credit_card_info = with_fields read_json_credit_card_info

  abbrev pub read_json_order_item : (String → Option Json) → Option OrderItem
  read_json_order_item look =
      as_message (from_json_cart_item c) (first_set ("item" ∷ []) look) >>= λ item.
      as_message (from_json_money c) (first_set ("cost" ∷ []) look) >>= λ cost.
      some record { item = item; cost = cost }

  unfoldable pub from_json_order_item : Json → Option (OrderItem)
  from_json_order_item = with_fields read_json_order_item

  abbrev pub read_json_order_result : (String → Option Json) → Option OrderResult
  read_json_order_result look =
      as_message (from_json_money c) (first_set ("shippingCost" ∷ "shipping_cost" ∷ []) look)
      >>= λ shipping_cost.
          as_message from_json_address
            (first_set ("shippingAddress" ∷ "shipping_address" ∷ []) look)
          >>= λ shipping_address.
              as_messages from_json_order_item (first_array ("items" ∷ []) look) >>= λ items.
              some record {
                order_id = as_text c (first_set ("orderId" ∷ "order_id" ∷ []) look);
                shipping_tracking_id =
                    as_text c (first_set ("shippingTrackingId" ∷ "shipping_tracking_id" ∷ []) look);
                shipping_cost = shipping_cost;
                shipping_address = shipping_address;
                items = items;
              }

  unfoldable pub from_json_order_result : Json → Option (OrderResult)
  from_json_order_result = with_fields read_json_order_result
