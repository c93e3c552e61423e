-- ===== src/Wire/Confirmation.antt =====
-- `encode` and `decode` of `SendOrderConfirmationRequest`
-- in src/frontend/protos/demo.ts.
pub mod RoundTrip
use opentelemetry_demo_mb3r.Prelude.{ℕ, Option, none, some, ◌++◌, eqb, if◌then◌else◌}
use opentelemetry_demo_mb3r.Proto.{SendOrderConfirmationRequest}
use opentelemetry_demo_mb3r.Wire.{
  Bytes, Wire, Step, other, into, decode_all, decode_nested, put_string, put_message,
}
use opentelemetry_demo_mb3r.Wire.Order.{base_order_result, encode_order_result, read_order_result}

abbrev pub base_send_order_confirmation_request : SendOrderConfirmationRequest
base_send_order_confirmation_request = record { email = ""; order = none }

module _ (w : Wire) where
  unfoldable pub encode_send_order_confirmation_request : SendOrderConfirmationRequest → Bytes
  unfolding encode_order_result
  encode_send_order_confirmation_request m =
      put_string w 10 m.email ++ put_message w (encode_order_result w) 18 m.order

  unfoldable pub read_send_order_confirmation_request :
      ℕ → SendOrderConfirmationRequest → Bytes → Step (SendOrderConfirmationRequest)
  unfolding decode_nested read_order_result
  read_send_order_confirmation_request tag m bs =
      if eqb tag 10
      then into (λ v. record m { email = v }) (w.read_string bs)
      else if eqb tag 18
      then into (λ v. record m { order = some v })
          (decode_nested w (read_order_result w) base_order_result bs)
      else other

  unfoldable pub decode_send_order_confirmation_request :
      Bytes → Option (SendOrderConfirmationRequest)
  unfolding decode_all read_send_order_confirmation_request
  decode_send_order_confirmation_request bs =
      decode_all w read_send_order_confirmation_request base_send_order_confirmation_request bs
