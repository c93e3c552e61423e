-- ===== src/Wire/Quote.antt =====
-- `encode` and `decode` of `GetQuoteRequest`, `GetQuoteResponse`, `ShipOrderRequest`, `ShipOrderResponse`
-- in src/frontend/protos/demo.ts.
pub mod RoundTrip
use opentelemetry_demo_mb3r.Prelude.{ℕ, Option, none, some, [], ◌∷◌, ◌++◌, eqb, if◌then◌else◌}
use opentelemetry_demo_mb3r.Proto.{
  GetQuoteRequest, GetQuoteResponse, ShipOrderRequest, ShipOrderResponse,
}
use opentelemetry_demo_mb3r.Wire.{
  Bytes, Wire, Step, other, into, decode_all, decode_nested, put_string, put_message, put_messages,
}
use opentelemetry_demo_mb3r.Wire.Order.{base_address, encode_address, read_address}
use opentelemetry_demo_mb3r.Wire.Cart.{base_cart_item, encode_cart_item, read_cart_item}
use opentelemetry_demo_mb3r.Wire.Money.{base_money, encode_money, read_money}

abbrev pub base_get_quote_request : GetQuoteRequest
base_get_quote_request = record { address = none; items = [] }

abbrev pub base_get_quote_response : GetQuoteResponse
base_get_quote_response = record { cost_usd = none }

abbrev pub base_ship_order_request : ShipOrderRequest
base_ship_order_request = record { address = none; items = [] }

abbrev pub base_ship_order_response : ShipOrderResponse
base_ship_order_response = record { tracking_id = "" }

module _ (w : Wire) where
  unfoldable pub encode_get_quote_request : GetQuoteRequest → Bytes
  unfolding encode_address encode_cart_item
  encode_get_quote_request m =
      put_message w (encode_address w) 10 m.address
      ++ put_messages w (encode_cart_item w) 18 m.items

  unfoldable pub read_get_quote_request : ℕ → GetQuoteRequest → Bytes → Step (GetQuoteRequest)
  unfolding decode_nested read_address read_cart_item
  read_get_quote_request tag m bs =
      if eqb tag 10
      then into (λ v. record m { address = some v })
          (decode_nested w (read_address w) base_address bs)
      else if eqb tag 18
      then into (λ v. record m { items = m.items ++ v ∷ [] })
          (decode_nested w (read_cart_item w) base_cart_item bs)
      else other

  unfoldable pub decode_get_quote_request : Bytes → Option (GetQuoteRequest)
  unfolding decode_all read_get_quote_request
  decode_get_quote_request bs = decode_all w read_get_quote_request base_get_quote_request bs

  unfoldable pub encode_get_quote_response : GetQuoteResponse → Bytes
  unfolding encode_money
  encode_get_quote_response m = put_message w (encode_money w) 10 m.cost_usd

  unfoldable pub read_get_quote_response : ℕ → GetQuoteResponse → Bytes → Step (GetQuoteResponse)
  unfolding decode_nested read_money
  read_get_quote_response tag m bs =
      if eqb tag 10
      then into (λ v. record m { cost_usd = some v }) (decode_nested w (read_money w) base_money bs)
      else other

  unfoldable pub decode_get_quote_response : Bytes → Option (GetQuoteResponse)
  unfolding decode_all read_get_quote_response
  decode_get_quote_response bs = decode_all w read_get_quote_response base_get_quote_response bs

  unfoldable pub encode_ship_order_request : ShipOrderRequest → Bytes
  unfolding encode_address encode_cart_item
  encode_ship_order_request m =
      put_message w (encode_address w) 10 m.address
      ++ put_messages w (encode_cart_item w) 18 m.items

  unfoldable pub read_ship_order_request : ℕ → ShipOrderRequest → Bytes → Step (ShipOrderRequest)
  unfolding decode_nested read_address read_cart_item
  read_ship_order_request tag m bs =
      if eqb tag 10
      then into (λ v. record m { address = some v })
          (decode_nested w (read_address w) base_address bs)
      else if eqb tag 18
      then into (λ v. record m { items = m.items ++ v ∷ [] })
          (decode_nested w (read_cart_item w) base_cart_item bs)
      else other

  unfoldable pub decode_ship_order_request : Bytes → Option (ShipOrderRequest)
  unfolding decode_all read_ship_order_request
  decode_ship_order_request bs = decode_all w read_ship_order_request base_ship_order_request bs

  unfoldable pub encode_ship_order_response : ShipOrderResponse → Bytes
  encode_ship_order_response m = put_string w 10 m.tracking_id

  unfoldable pub read_ship_order_response : ℕ → ShipOrderResponse → Bytes → Step (ShipOrderResponse)
  read_ship_order_response tag m bs =
      if eqb tag 10 then into (λ v. record m { tracking_id = v }) (w.read_string bs) else other

  unfoldable pub decode_ship_order_response : Bytes → Option (ShipOrderResponse)
  unfolding decode_all read_ship_order_response
  decode_ship_order_response bs = decode_all w read_ship_order_response base_ship_order_response bs
