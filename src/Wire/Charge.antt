-- ===== src/Wire/Charge.antt =====
-- `encode` and `decode` of `ChargeRequest`, `ChargeResponse`
-- in src/frontend/protos/demo.ts.
pub mod RoundTrip
use opentelemetry_demo_mb3r.Prelude.{ℕ, Option, none, some, ◌++◌, eqb, if◌then◌else◌}
use opentelemetry_demo_mb3r.Proto.{ChargeRequest, ChargeResponse}
use opentelemetry_demo_mb3r.Wire.{
  Bytes, Wire, Step, other, into, decode_all, decode_nested, put_string, put_message,
}
use opentelemetry_demo_mb3r.Wire.Order.{
  base_credit_card_info, encode_credit_card_info, read_credit_card_info,
}
use opentelemetry_demo_mb3r.Wire.Money.{base_money, encode_money, read_money}

abbrev pub base_charge_request : ChargeRequest
base_charge_request = record { amount = none; credit_card = none }

abbrev pub base_charge_response : ChargeResponse
base_charge_response = record { transaction_id = "" }

module _ (w : Wire) where
  unfoldable pub encode_charge_request : ChargeRequest → Bytes
  unfolding encode_money encode_credit_card_info
  encode_charge_request m =
      put_message w (encode_money w) 10 m.amount
      ++ put_message w (encode_credit_card_info w) 18 m.credit_card

  unfoldable pub read_charge_request : ℕ → ChargeRequest → Bytes → Step (ChargeRequest)
  unfolding decode_nested read_money read_credit_card_info
  read_charge_request tag m bs =
      if eqb tag 10
      then into (λ v. record m { amount = some v }) (decode_nested w (read_money w) base_money bs)
      else if eqb tag 18
      then into (λ v. record m { credit_card = some v })
          (decode_nested w (read_credit_card_info w) base_credit_card_info bs)
      else other

  unfoldable pub decode_charge_request : Bytes → Option (ChargeRequest)
  unfolding decode_all read_charge_request
  decode_charge_request bs = decode_all w read_charge_request base_charge_request bs

  unfoldable pub encode_charge_response : ChargeResponse → Bytes
  encode_charge_response m = put_string w 10 m.transaction_id

  unfoldable pub read_charge_response : ℕ → ChargeResponse → Bytes → Step (ChargeResponse)
  read_charge_response tag m bs =
      if eqb tag 10 then into (λ v. record m { transaction_id = v }) (w.read_string bs) else other

  unfoldable pub decode_charge_response : Bytes → Option (ChargeResponse)
  unfolding decode_all read_charge_response
  decode_charge_response bs = decode_all w read_charge_response base_charge_response bs
