-- ===== src/Json/Order/RoundTrip.antt =====
-- What `toJSON` writes of `Address`, `CreditCardInfo`, `OrderItem`, `OrderResult`, `fromJSON`
-- reads back.
use opentelemetry_demo_mb3r.Prelude.{◌≡◌, refl, ap, ◌∙◌, some}
use opentelemetry_demo_mb3r.Proto.{Address, CreditCardInfo, OrderItem, OrderResult}
use opentelemetry_demo_mb3r.Json.{Conversions}
use opentelemetry_demo_mb3r.Json.Fields.{
  get-fields_of, as_text-text_value, as_number-number_value, as_message-message_value,
  as_messages-messages_value,
}
use opentelemetry_demo_mb3r.Json.Order.{
  from_json_address, to_json_address, read_json_address, address_fields, from_json_credit_card_info,
  to_json_credit_card_info, read_json_credit_card_info, credit_card_info_fields,
  from_json_order_item, to_json_order_item, read_json_order_item, order_item_fields,
  from_json_order_result, to_json_order_result, read_json_order_result, order_result_fields,
}
use opentelemetry_demo_mb3r.Json.Cart.{from_json_cart_item, to_json_cart_item}
use opentelemetry_demo_mb3r.Json.Money.{from_json_money, to_json_money}
use opentelemetry_demo_mb3r.Json.Cart.RoundTrip.{from_json_cart_item-to_json_cart_item}
use opentelemetry_demo_mb3r.Json.Money.RoundTrip.{from_json_money-to_json_money}

pub from_json_address-to_json_address :
    (c : Conversions) (m : Address) → from_json_address c (to_json_address m) ≡ some m
unfolding from_json_address to_json_address
from_json_address-to_json_address c m =
    ap (read_json_address c) (get-fields_of (address_fields m))
    ∙ rw
        (
          as_text-text_value c m.street_address,
          as_text-text_value c m.city,
          as_text-text_value c m.state,
          as_text-text_value c m.country,
          as_text-text_value c m.zip_code,
        )
        refl

pub from_json_credit_card_info-to_json_credit_card_info :
    (c : Conversions) (m : CreditCardInfo)
    → from_json_credit_card_info c (to_json_credit_card_info m) ≡ some m
unfolding from_json_credit_card_info to_json_credit_card_info
from_json_credit_card_info-to_json_credit_card_info c m =
    ap (read_json_credit_card_info c) (get-fields_of (credit_card_info_fields m))
    ∙ rw
        (
          as_text-text_value c m.credit_card_number,
          as_number-number_value c m.credit_card_cvv,
          as_number-number_value c m.credit_card_expiration_year,
          as_number-number_value c m.credit_card_expiration_month,
        )
        refl

pub from_json_order_item-to_json_order_item :
    (c : Conversions) (m : OrderItem) → from_json_order_item c (to_json_order_item m) ≡ some m
unfolding from_json_order_item to_json_order_item to_json_cart_item to_json_money
from_json_order_item-to_json_order_item c m =
    ap (read_json_order_item c) (get-fields_of (order_item_fields m))
    ∙ rw
        (
          as_message-message_value (from_json_cart_item c) to_json_cart_item
              (from_json_cart_item-to_json_cart_item c) (λ m. tt) m.item,
          as_message-message_value (from_json_money c) to_json_money
              (from_json_money-to_json_money c) (λ m. tt) m.cost,
        )
        refl

pub from_json_order_result-to_json_order_result :
    (c : Conversions) (m : OrderResult) → from_json_order_result c (to_json_order_result m) ≡ some m
unfolding from_json_order_result to_json_order_result to_json_money to_json_address
    to_json_order_item
from_json_order_result-to_json_order_result c m =
    ap (read_json_order_result c) (get-fields_of (order_result_fields m))
    ∙ rw
        (
          as_text-text_value c m.order_id,
          as_text-text_value c m.shipping_tracking_id,
          as_message-message_value (from_json_money c) to_json_money
              (from_json_money-to_json_money c) (λ m. tt) m.shipping_cost,
          as_message-message_value (from_json_address c) to_json_address
              (from_json_address-to_json_address c) (λ m. tt) m.shipping_address,
          as_messages-messages_value (from_json_order_item c) to_json_order_item
              (from_json_order_item-to_json_order_item c) m.items,
        )
        refl
