-- ===== src/Wire/Quote/RoundTrip.antt =====
-- What `decode` makes of the bytes of `encode`, for the messages of the parent module.
use opentelemetry_demo_mb3r.Prelude.{◌^◌, ◌<◌, ◌≡◌, refl, some, [], All, length, arith}
use opentelemetry_demo_mb3r.Proto.{
  GetQuoteRequest, GetQuoteResponse, ShipOrderRequest, ShipOrderResponse,
}
use opentelemetry_demo_mb3r.Wire.{Wire}
use opentelemetry_demo_mb3r.Wire.Reading.{Takes, Takes-then, Takes-string, decode_all-Takes}
use opentelemetry_demo_mb3r.Wire.Nesting.{OnSome, Takes-message, Takes-messages}
use opentelemetry_demo_mb3r.Wire.Quote.{
  base_get_quote_request, encode_get_quote_request, read_get_quote_request,
  decode_get_quote_request, base_get_quote_response, encode_get_quote_response,
  read_get_quote_response, decode_get_quote_response, base_ship_order_request,
  encode_ship_order_request, read_ship_order_request, decode_ship_order_request,
  base_ship_order_response, encode_ship_order_response, read_ship_order_response,
  decode_ship_order_response,
}
use opentelemetry_demo_mb3r.Wire.Cart.{base_cart_item, encode_cart_item, read_cart_item}
use opentelemetry_demo_mb3r.Wire.Cart.RoundTrip.{Takes-cart_item, FitsCartItem}
use opentelemetry_demo_mb3r.Wire.Money.{base_money, encode_money, read_money}
use opentelemetry_demo_mb3r.Wire.Money.RoundTrip.{Takes-money, FitsMoney}
use opentelemetry_demo_mb3r.Wire.Order.{base_address, encode_address, read_address}
use opentelemetry_demo_mb3r.Wire.Order.RoundTrip.{Takes-address}

module _ (w : Wire) where
  abbrev pub FitsGetQuoteRequest : GetQuoteRequest → Type 0
  FitsGetQuoteRequest m =
      (OnSome (λ x. (length (encode_address w x) < 2 ^ 32)) m.address)
      × (All (λ x. FitsCartItem w x × (length (encode_cart_item w x) < 2 ^ 32)) m.items)

  pub Takes-get_quote_request :
      (m : GetQuoteRequest)
      → FitsGetQuoteRequest m
      → Takes w (read_get_quote_request w) (encode_get_quote_request w m) base_get_quote_request m
  unfolding encode_get_quote_request read_get_quote_request
  Takes-get_quote_request m h =
      Takes-then w (read_get_quote_request w)
        (Takes-message w (read_get_quote_request w) (read_address w) (encode_address w) base_address
          10 (λ v. record { address = v; items = [] }) m.address (omega arith)
          (λ x p. (Takes-address w x, p)) h.0 (λ bs. refl))
        (Takes-messages w (read_get_quote_request w) (read_cart_item w) (encode_cart_item w)
          base_cart_item 18 (λ v. record { address = m.address; items = v }) [] m.items
          (omega arith) (λ x p. (Takes-cart_item w x p.0, p.1)) h.1 (λ before bs. refl))

  pub decode_get_quote_request-encode_get_quote_request :
      (m : GetQuoteRequest)
      → FitsGetQuoteRequest m
      → decode_get_quote_request w (encode_get_quote_request w m) ≡ some m
  unfolding decode_get_quote_request
  decode_get_quote_request-encode_get_quote_request m h =
      decode_all-Takes w (read_get_quote_request w) (Takes-get_quote_request m h)

  abbrev pub FitsGetQuoteResponse : GetQuoteResponse → Type 0
  FitsGetQuoteResponse m =
      OnSome (λ x. FitsMoney w x × (length (encode_money w x) < 2 ^ 32)) m.cost_usd

  pub Takes-get_quote_response :
      (m : GetQuoteResponse)
      → FitsGetQuoteResponse m
      → Takes w
          (read_get_quote_response w)
          (encode_get_quote_response w m)
          base_get_quote_response
          m
  unfolding encode_get_quote_response read_get_quote_response
  Takes-get_quote_response m h =
      Takes-message w (read_get_quote_response w) (read_money w) (encode_money w) base_money 10
        (λ v. record { cost_usd = v }) m.cost_usd (omega arith) (λ x p. (Takes-money w x p.0, p.1))
        h (λ bs. refl)

  pub decode_get_quote_response-encode_get_quote_response :
      (m : GetQuoteResponse)
      → FitsGetQuoteResponse m
      → decode_get_quote_response w (encode_get_quote_response w m) ≡ some m
  unfolding decode_get_quote_response
  decode_get_quote_response-encode_get_quote_response m h =
      decode_all-Takes w (read_get_quote_response w) (Takes-get_quote_response m h)

  abbrev pub FitsShipOrderRequest : ShipOrderRequest → Type 0
  FitsShipOrderRequest m =
      (OnSome (λ x. (length (encode_address w x) < 2 ^ 32)) m.address)
      × (All (λ x. FitsCartItem w x × (length (encode_cart_item w x) < 2 ^ 32)) m.items)

  pub Takes-ship_order_request :
      (m : ShipOrderRequest)
      → FitsShipOrderRequest m
      → Takes w
          (read_ship_order_request w)
          (encode_ship_order_request w m)
          base_ship_order_request
          m
  unfolding encode_ship_order_request read_ship_order_request
  Takes-ship_order_request m h =
      Takes-then w (read_ship_order_request w)
        (Takes-message w (read_ship_order_request w) (read_address w) (encode_address w)
          base_address 10 (λ v. record { address = v; items = [] }) m.address (omega arith)
          (λ x p. (Takes-address w x, p)) h.0 (λ bs. refl))
        (Takes-messages w (read_ship_order_request w) (read_cart_item w) (encode_cart_item w)
          base_cart_item 18 (λ v. record { address = m.address; items = v }) [] m.items
          (omega arith) (λ x p. (Takes-cart_item w x p.0, p.1)) h.1 (λ before bs. refl))

  pub decode_ship_order_request-encode_ship_order_request :
      (m : ShipOrderRequest)
      → FitsShipOrderRequest m
      → decode_ship_order_request w (encode_ship_order_request w m) ≡ some m
  unfolding decode_ship_order_request
  decode_ship_order_request-encode_ship_order_request m h =
      decode_all-Takes w (read_ship_order_request w) (Takes-ship_order_request m h)

  pub Takes-ship_order_response :
      (m : ShipOrderResponse)
      → Takes w
          (read_ship_order_response w)
          (encode_ship_order_response w m)
          base_ship_order_response
          m
  unfolding encode_ship_order_response read_ship_order_response
  Takes-ship_order_response m =
      Takes-string w (read_ship_order_response w) 10 (λ v. record { tracking_id = v }) m.tracking_id
        (omega arith) (λ bs. refl)

  pub decode_ship_order_response-encode_ship_order_response :
      (m : ShipOrderResponse)
      → decode_ship_order_response w (encode_ship_order_response w m) ≡ some m
  unfolding decode_ship_order_response
  decode_ship_order_response-encode_ship_order_response m =
      decode_all-Takes w (read_ship_order_response w) (Takes-ship_order_response m)
