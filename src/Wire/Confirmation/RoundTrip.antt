-- ===== src/Wire/Confirmation/RoundTrip.antt =====
-- What `decode` makes of the bytes of `encode`, for the messages of the parent module.
use opentelemetry_demo_mb3r.Prelude.{◌^◌, ◌<◌, ◌≡◌, refl, none, some, length, arith}
use opentelemetry_demo_mb3r.Proto.{SendOrderConfirmationRequest}
use opentelemetry_demo_mb3r.Wire.{Wire}
use opentelemetry_demo_mb3r.Wire.Reading.{Takes, Takes-then, Takes-string, decode_all-Takes}
use opentelemetry_demo_mb3r.Wire.Nesting.{OnSome, Takes-message}
use opentelemetry_demo_mb3r.Wire.Confirmation.{
  base_send_order_confirmation_request, encode_send_order_confirmation_request,
  read_send_order_confirmation_request, decode_send_order_confirmation_request,
}
use opentelemetry_demo_mb3r.Wire.Order.{base_order_result, encode_order_result, read_order_result}
use opentelemetry_demo_mb3r.Wire.Order.RoundTrip.{Takes-order_result, FitsOrderResult}

module _ (w : Wire) where
  abbrev pub FitsSendOrderConfirmationRequest : SendOrderConfirmationRequest → Type 0
  FitsSendOrderConfirmationRequest m =
      OnSome (λ x. FitsOrderResult w x × (length (encode_order_result w x) < 2 ^ 32)) m.order

  pub Takes-send_order_confirmation_request :
      (m : SendOrderConfirmationRequest)
      → FitsSendOrderConfirmationRequest m
      → Takes w
          (read_send_order_confirmation_request w)
          (encode_send_order_confirmation_request w m)
          base_send_order_confirmation_request
          m
  unfolding encode_send_order_confirmation_request read_send_order_confirmation_request
  Takes-send_order_confirmation_request m h =
      Takes-then w (read_send_order_confirmation_request w)
        (Takes-string w (read_send_order_confirmation_request w) 10
          (λ v. record { email = v; order = none }) m.email (omega arith) (λ bs. refl))
        (Takes-message w (read_send_order_confirmation_request w) (read_order_result w)
          (encode_order_result w) base_order_result 18 (λ v. record { email = m.email; order = v })
          m.order (omega arith) (λ x p. (Takes-order_result w x p.0, p.1)) h (λ bs. refl))

  pub decode_send_order_confirmation_request-encode_send_order_confirmation_request :
      (m : SendOrderConfirmationRequest)
      → FitsSendOrderConfirmationRequest m
      → decode_send_order_confirmation_request w (encode_send_order_confirmation_request w m)
        ≡ some m
  unfolding decode_send_order_confirmation_request
  decode_send_order_confirmation_request-encode_send_order_confirmation_request m h =
      decode_all-Takes w (read_send_order_confirmation_request w)
        (Takes-send_order_confirmation_request m h)
