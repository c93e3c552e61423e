-- ===== src/Wire/Charge/RoundTrip.antt =====
-- What `decode` makes of the bytes of `encode`, for the messages of the parent module.
use opentelemetry_demo_mb3r.Prelude.{◌^◌, ◌<◌, ◌≡◌, refl, none, some, length, arith}
use opentelemetry_demo_mb3r.Proto.{ChargeRequest, ChargeResponse}
use opentelemetry_demo_mb3r.Wire.{Wire}
use opentelemetry_demo_mb3r.Wire.Reading.{Takes, Takes-then, Takes-string, decode_all-Takes}
use opentelemetry_demo_mb3r.Wire.Nesting.{OnSome, Takes-message}
use opentelemetry_demo_mb3r.Wire.Charge.{
  base_charge_request, encode_charge_request, read_charge_request, decode_charge_request,
  base_charge_response, encode_charge_response, read_charge_response, decode_charge_response,
}
use opentelemetry_demo_mb3r.Wire.Money.{base_money, encode_money, read_money}
use opentelemetry_demo_mb3r.Wire.Money.RoundTrip.{Takes-money, FitsMoney}
use opentelemetry_demo_mb3r.Wire.Order.{
  base_credit_card_info, encode_credit_card_info, read_credit_card_info,
}
use opentelemetry_demo_mb3r.Wire.Order.RoundTrip.{Takes-credit_card_info, FitsCreditCardInfo}

module _ (w : Wire) where
  abbrev pub FitsChargeRequest : ChargeRequest → Type 0
  FitsChargeRequest m =
      (OnSome (λ x. FitsMoney w x × (length (encode_money w x) < 2 ^ 32)) m.amount)
      × (OnSome (λ x. FitsCreditCardInfo w x × (length (encode_credit_card_info w x) < 2 ^ 32))
          m.credit_card)

  pub Takes-charge_request :
      (m : ChargeRequest)
      → FitsChargeRequest m
      → Takes w (read_charge_request w) (encode_charge_request w m) base_charge_request m
  unfolding encode_charge_request read_charge_request
  Takes-charge_request m h =
      Takes-then w (read_charge_request w)
        (Takes-message w (read_charge_request w) (read_money w) (encode_money w) base_money 10
          (λ v. record { amount = v; credit_card = none }) m.amount (omega arith)
          (λ x p. (Takes-money w x p.0, p.1)) h.0 (λ bs. refl))
        (Takes-message w (read_charge_request w) (read_credit_card_info w)
          (encode_credit_card_info w) base_credit_card_info 18
          (λ v. record { amount = m.amount; credit_card = v }) m.credit_card (omega arith)
          (λ x p. (Takes-credit_card_info w x p.0, p.1)) h.1 (λ bs. refl))

  pub decode_charge_request-encode_charge_request :
      (m : ChargeRequest)
      → FitsChargeRequest m
      → decode_charge_request w (encode_charge_request w m) ≡ some m
  unfolding decode_charge_request
  decode_charge_request-encode_charge_request m h =
      decode_all-Takes w (read_charge_request w) (Takes-charge_request m h)

  pub Takes-charge_response :
      (m : ChargeResponse)
      → Takes w (read_charge_response w) (encode_charge_response w m) base_charge_response m
  unfolding encode_charge_response read_charge_response
  Takes-charge_response m =
      Takes-string w (read_charge_response w) 10 (λ v. record { transaction_id = v })
        m.transaction_id (omega arith) (λ bs. refl)

  pub decode_charge_response-encode_charge_response :
      (m : ChargeResponse) → decode_charge_response w (encode_charge_response w m) ≡ some m
  unfolding decode_charge_response
  decode_charge_response-encode_charge_response m =
      decode_all-Takes w (read_charge_response w) (Takes-charge_response m)
