-- ===== src/Wire/Order.antt =====
-- `encode` and `decode` of `Address`, `CreditCardInfo`, `OrderItem`, `OrderResult`
-- in src/frontend/protos/demo.ts.
pub mod RoundTrip
pub mod Fuel
use opentelemetry_demo_mb3r.Prelude.{ℕ, pos, Option, none, some, [], ◌∷◌, ◌++◌, eqb, if◌then◌else◌}
use opentelemetry_demo_mb3r.Proto.{Address, CreditCardInfo, OrderItem, OrderResult}
use opentelemetry_demo_mb3r.Wire.{
  Bytes, Wire, Step, other, into, decode_all, decode_nested, put_string, put_int32, put_message,
  put_messages,
}
use opentelemetry_demo_mb3r.Wire.Cart.{base_cart_item, encode_cart_item, read_cart_item}
use opentelemetry_demo_mb3r.Wire.Money.{base_money, encode_money, read_money}

abbrev pub base_address : Address
base_address = record { street_address = ""; city = ""; state = ""; country = ""; zip_code = "" }

abbrev pub base_credit_card_info : CreditCardInfo
base_credit_card_info = record {
  credit_card_number = "";
  credit_card_cvv = pos 0;
  credit_card_expiration_year = pos 0;
  credit_card_expiration_month = pos 0;
}

abbrev pub base_order_item : OrderItem
base_order_item = record { item = none; cost = none }

abbrev pub base_order_result : OrderResult
base_order_result = record {
  order_id = "";
  shipping_tracking_id = "";
  shipping_cost = none;
  shipping_address = none;
  items = [];
}

module _ (w : Wire) where
  unfoldable pub encode_address : Address → Bytes
  encode_address m =
      put_string w 10 m.street_address
      ++ put_string w 18 m.city
      ++ put_string w 26 m.state
      ++ put_string w 34 m.country
      ++ put_string w 42 m.zip_code

  unfoldable pub read_address : ℕ → Address → Bytes → Step (Address)
  read_address tag m bs =
      if eqb tag 10
      then into (λ v. record m { street_address = v }) (w.read_string bs)
      else if eqb tag 18
      then into (λ v. record m { city = v }) (w.read_string bs)
      else if eqb tag 26
      then into (λ v. record m { state = v }) (w.read_string bs)
      else if eqb tag 34
      then into (λ v. record m { country = v }) (w.read_string bs)
      else if eqb tag 42
      then into (λ v. record m { zip_code = v }) (w.read_string bs)
      else other

  unfoldable pub decode_address : Bytes → Option (Address)
  unfolding decode_all read_address
  decode_address bs = decode_all w read_address base_address bs

  unfoldable pub encode_credit_card_info : CreditCardInfo → Bytes
  encode_credit_card_info m =
      put_string w 10 m.credit_card_number
      ++ put_int32 w 16 m.credit_card_cvv
      ++ put_int32 w 24 m.credit_card_expiration_year
      ++ put_int32 w 32 m.credit_card_expiration_month

  unfoldable pub read_credit_card_info : ℕ → CreditCardInfo → Bytes → Step (CreditCardInfo)
  read_credit_card_info tag m bs =
      if eqb tag 10
      then into (λ v. record m { credit_card_number = v }) (w.read_string bs)
      else if eqb tag 16
      then into (λ v. record m { credit_card_cvv = v }) (w.read_int32 bs)
      else if eqb tag 24
      then into (λ v. record m { credit_card_expiration_year = v }) (w.read_int32 bs)
      else if eqb tag 32
      then into (λ v. record m { credit_card_expiration_month = v }) (w.read_int32 bs)
      else other

  unfoldable pub decode_credit_card_info : Bytes → Option (CreditCardInfo)
  unfolding decode_all read_credit_card_info
  decode_credit_card_info bs = decode_all w read_credit_card_info base_credit_card_info bs

  unfoldable pub encode_order_item : OrderItem → Bytes
  unfolding encode_cart_item encode_money
  encode_order_item m =
      put_message w (encode_cart_item w) 10 m.item ++ put_message w (encode_money w) 18 m.cost

  unfoldable pub read_order_item : ℕ → OrderItem → Bytes → Step (OrderItem)
  unfolding decode_nested read_cart_item read_money
  read_order_item tag m bs =
      if eqb tag 10
      then into (λ v. record m { item = some v })
          (decode_nested w (read_cart_item w) base_cart_item bs)
      else if eqb tag 18
      then into (λ v. record m { cost = some v }) (decode_nested w (read_money w) base_money bs)
      else other

  unfoldable pub decode_order_item : Bytes → Option (OrderItem)
  unfolding decode_all read_order_item
  decode_order_item bs = decode_all w read_order_item base_order_item bs

  unfoldable pub encode_order_result : OrderResult → Bytes
  unfolding encode_money encode_address encode_order_item
  encode_order_result m =
      put_string w 10 m.order_id
      ++ put_string w 18 m.shipping_tracking_id
      ++ put_message w (encode_money w) 26 m.shipping_cost
      ++ put_message w encode_address 34 m.shipping_address
      ++ put_messages w encode_order_item 42 m.items

  unfoldable pub read_order_result : ℕ → OrderResult → Bytes → Step (OrderResult)
  unfolding decode_nested read_money read_address read_order_item
  read_order_result tag m bs =
      if eqb tag 10
      then into (λ v. record m { order_id = v }) (w.read_string bs)
      else if eqb tag 18
      then into (λ v. record m { shipping_tracking_id = v }) (w.read_string bs)
      else if eqb tag 26
      then into (λ v. record m { shipping_cost = some v })
          (decode_nested w (read_money w) base_money bs)
      else if eqb tag 34
      then into (λ v. record m { shipping_address = some v })
          (decode_nested w read_address base_address bs)
      else if eqb tag 42
      then into (λ v. record m { items = m.items ++ v ∷ [] })
          (decode_nested w read_order_item base_order_item bs)
      else other

  unfoldable pub decode_order_result : Bytes → Option (OrderResult)
  unfolding decode_all read_order_result
  decode_order_result bs = decode_all w read_order_result base_order_result bs
