-- ===== src/Wire/Checkout.antt =====
-- `encode` and `decode` of `PlaceOrderRequest`, `PlaceOrderResponse`
-- in src/frontend/protos/demo.ts.
pub mod RoundTrip
pub mod Fuel
use opentelemetry_demo_mb3r.Prelude.{ℕ, Option, none, some, ◌++◌, eqb, if◌then◌else◌}
use opentelemetry_demo_mb3r.Proto.{PlaceOrderRequest, PlaceOrderResponse}
use opentelemetry_demo_mb3r.Wire.{
  Bytes, Wire, Step, other, into, decode_all, decode_nested, put_string, put_message,
}
use opentelemetry_demo_mb3r.Wire.Order.{base_address, encode_address, read_address}
use opentelemetry_demo_mb3r.Wire.Order.{
  base_credit_card_info, encode_credit_card_info, read_credit_card_info,
}
use opentelemetry_demo_mb3r.Wire.Order.{base_order_result, encode_order_result, read_order_result}

abbrev pub base_place_order_request : PlaceOrderRequest
base_place_order_request = record {
  user_id = "";
  user_currency = "";
  address = none;
  email = "";
  credit_card = none;
}

abbrev pub base_place_order_response : PlaceOrderResponse
base_place_order_response = record { order = none }

module _ (w : Wire) where
  unfoldable pub encode_place_order_request : PlaceOrderRequest → Bytes
  unfolding encode_address encode_credit_card_info
  encode_place_order_request m =
      put_string w 10 m.user_id
      ++ put_string w 18 m.user_currency
      ++ put_message w (encode_address w) 26 m.address
      ++ put_string w 42 m.email
      ++ put_message w (encode_credit_card_info w) 50 m.credit_card

  unfoldable pub read_place_order_request : ℕ → PlaceOrderRequest → Bytes → Step (PlaceOrderRequest)
  unfolding decode_nested read_address read_credit_card_info
  read_place_order_request tag m bs =
      if eqb tag 10
      then into (λ v. record m { user_id = v }) (w.read_string bs)
      else if eqb tag 18
      then into (λ v. record m { user_currency = v }) (w.read_string bs)
      else if eqb tag 26
      then into (λ v. record m { address = some v })
          (decode_nested w (read_address w) base_address bs)
      else if eqb tag 42
      then into (λ v. record m { email = v }) (w.read_string bs)
      else if eqb tag 50
      then into (λ v. record m { credit_card = some v })
          (decode_nested w (read_credit_card_info w) base_credit_card_info bs)
      else other

  unfoldable pub decode_place_order_request : Bytes → Option (PlaceOrderRequest)
  unfolding decode_all read_place_order_request
  decode_place_order_request bs = decode_all w read_place_order_request base_place_order_request bs

  unfoldable pub encode_place_order_response : PlaceOrderResponse → Bytes
  unfolding encode_order_result
  encode_place_order_response m = put_message w (encode_order_result w) 10 m.order

  unfoldable pub read_place_order_response :
      ℕ → PlaceOrderResponse → Bytes → Step (PlaceOrderResponse)
  unfolding decode_nested read_order_result
  read_place_order_response tag m bs =
      if eqb tag 10
      then into (λ v. record m { order = some v })
          (decode_nested w (read_order_result w) base_order_result bs)
      else other

  unfoldable pub decode_place_order_response : Bytes → Option (PlaceOrderResponse)
  unfolding decode_all read_place_order_response
  decode_place_order_response bs =
      decode_all w read_place_order_response base_place_order_response bs
