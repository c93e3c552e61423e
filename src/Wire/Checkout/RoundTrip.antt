-- ===== src/Wire/Checkout/RoundTrip.antt =====
-- What `decode` makes of the bytes of `encode`, for the messages of the parent module.
use opentelemetry_demo_mb3r.Prelude.{◌^◌, ◌<◌, ◌≡◌, refl, none, some, length, arith}
use opentelemetry_demo_mb3r.Proto.{PlaceOrderRequest, PlaceOrderResponse}
use opentelemetry_demo_mb3r.Wire.{Wire}
use opentelemetry_demo_mb3r.Wire.Reading.{Takes, Takes-then, Takes-string, decode_all-Takes}
use opentelemetry_demo_mb3r.Wire.Nesting.{OnSome, Takes-message}
use opentelemetry_demo_mb3r.Wire.Checkout.{
  base_place_order_request, encode_place_order_request, read_place_order_request,
  decode_place_order_request, base_place_order_response, encode_place_order_response,
  read_place_order_response, decode_place_order_response,
}
use opentelemetry_demo_mb3r.Wire.Order.{
  base_address, encode_address, read_address, base_credit_card_info, encode_credit_card_info,
  read_credit_card_info, base_order_result, encode_order_result, read_order_result,
}
use opentelemetry_demo_mb3r.Wire.Order.RoundTrip.{
  Takes-address, Takes-credit_card_info, Takes-order_result, FitsCreditCardInfo, FitsOrderResult,
}

module _ (w : Wire) where
  abbrev pub FitsPlaceOrderRequest : PlaceOrderRequest → Type 0
  FitsPlaceOrderRequest m =
      (OnSome (λ x. (length (encode_address w x) < 2 ^ 32)) m.address)
      × (OnSome (λ x. FitsCreditCardInfo w x × (length (encode_credit_card_info w x) < 2 ^ 32))
          m.credit_card)

  pub Takes-place_order_request :
      (m : PlaceOrderRequest)
      → FitsPlaceOrderRequest m
      → Takes w
          (read_place_order_request w)
          (encode_place_order_request w m)
          base_place_order_request
          m
  unfolding encode_place_order_request read_place_order_request
  Takes-place_order_request m h =
      Takes-then w (read_place_order_request w)
        (Takes-then w (read_place_order_request w)
          (Takes-then w (read_place_order_request w)
            (Takes-then w (read_place_order_request w)
              (Takes-string w (read_place_order_request w) 10
                (λ v. record {
                  user_id = v;
                  user_currency = "";
                  address = none;
                  email = "";
                  credit_card = none;
                })
                m.user_id (omega arith) (λ bs. refl))
              (Takes-string w (read_place_order_request w) 18
                (λ v. record {
                  user_id = m.user_id;
                  user_currency = v;
                  address = none;
                  email = "";
                  credit_card = none;
                })
                m.user_currency (omega arith) (λ bs. refl)))
            (Takes-message w (read_place_order_request w) (read_address w) (encode_address w)
              base_address 26
              (λ v. record {
                user_id = m.user_id;
                user_currency = m.user_currency;
                address = v;
                email = "";
                credit_card = none;
              })
              m.address (omega arith) (λ x p. (Takes-address w x, p)) h.0 (λ bs. refl)))
          (Takes-string w (read_place_order_request w) 42
            (λ v. record {
              user_id = m.user_id;
              user_currency = m.user_currency;
              address = m.address;
              email = v;
              credit_card = none;
            })
            m.email (omega arith) (λ bs. refl)))
        (Takes-message w (read_place_order_request w) (read_credit_card_info w)
          (encode_credit_card_info w) base_credit_card_info 50
          (λ v. record {
            user_id = m.user_id;
            user_currency = m.user_currency;
            address = m.address;
            email = m.email;
            credit_card = v;
          })
          m.credit_card (omega arith) (λ x p. (Takes-credit_card_info w x p.0, p.1)) h.1
          (λ bs. refl))

  -- If the numbers of an order's card are in range and its address and card are not too long, then
  -- decoding the bytes of the order gives the order.
  pub decode_place_order_request-encode_place_order_request :
      (m : PlaceOrderRequest)
      → FitsPlaceOrderRequest m
      → decode_place_order_request w (encode_place_order_request w m) ≡ some m
  unfolding decode_place_order_request
  decode_place_order_request-encode_place_order_request m h =
      decode_all-Takes w (read_place_order_request w) (Takes-place_order_request m h)

  abbrev pub FitsPlaceOrderResponse : PlaceOrderResponse → Type 0
  FitsPlaceOrderResponse m =
      OnSome (λ x. FitsOrderResult w x × (length (encode_order_result w x) < 2 ^ 32)) m.order

  pub Takes-place_order_response :
      (m : PlaceOrderResponse)
      → FitsPlaceOrderResponse m
      → Takes w
          (read_place_order_response w)
          (encode_place_order_response w m)
          base_place_order_response
          m
  unfolding encode_place_order_response read_place_order_response
  Takes-place_order_response m h =
      Takes-message w (read_place_order_response w) (read_order_result w) (encode_order_result w)
        base_order_result 10 (λ v. record { order = v }) m.order (omega arith)
        (λ x p. (Takes-order_result w x p.0, p.1)) h (λ bs. refl)

  pub decode_place_order_response-encode_place_order_response :
      (m : PlaceOrderResponse)
      → FitsPlaceOrderResponse m
      → decode_place_order_response w (encode_place_order_response w m) ≡ some m
  unfolding decode_place_order_response
  decode_place_order_response-encode_place_order_response m h =
      decode_all-Takes w (read_place_order_response w) (Takes-place_order_response m h)
