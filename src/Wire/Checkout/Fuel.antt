-- ===== src/Wire/Checkout/Fuel.antt =====
-- The bytes that the cases of the parent module's `decode` leave.
use opentelemetry_demo_mb3r.Prelude.{ℕ, some, eqb}
use opentelemetry_demo_mb3r.Wire.{Wire, decode_nested}
use opentelemetry_demo_mb3r.Wire.Fuel.{
  Shrinks, Shrinks-if, Shrinks-into, Shrinks-other, decode_nested-IsReader,
}
use opentelemetry_demo_mb3r.Wire.Checkout.{read_place_order_request, read_place_order_response}
use opentelemetry_demo_mb3r.Wire.Order.{
  base_address, read_address, base_credit_card_info, read_credit_card_info, base_order_result,
  read_order_result,
}
use opentelemetry_demo_mb3r.Wire.Order.Fuel.{
  read_address-Shrinks, read_credit_card_info-Shrinks, read_order_result-Shrinks,
}

module _ (w : Wire) where
  pub read_place_order_request-Shrinks : (tag : ℕ) → Shrinks (read_place_order_request w tag)
  unfolding read_place_order_request
  read_place_order_request-Shrinks tag =
      Shrinks-if (eqb tag 10) _ _
        (Shrinks-into w.read_string (λ m v. record m { user_id = v }) w.string_takes)
        (Shrinks-if (eqb tag 18) _ _
          (Shrinks-into w.read_string (λ m v. record m { user_currency = v }) w.string_takes)
          (Shrinks-if (eqb tag 26) _ _
            (Shrinks-into (decode_nested w (read_address w) base_address)
              (λ m v. record m { address = some v })
              (decode_nested-IsReader w (read_address w) (read_address-Shrinks w) base_address))
            (Shrinks-if (eqb tag 42) _ _
              (Shrinks-into w.read_string (λ m v. record m { email = v }) w.string_takes)
              (Shrinks-if (eqb tag 50) _ _
                (Shrinks-into (decode_nested w (read_credit_card_info w) base_credit_card_info)
                  (λ m v. record m { credit_card = some v })
                  (decode_nested-IsReader w (read_credit_card_info w)
                    (read_credit_card_info-Shrinks w) base_credit_card_info))
                (Shrinks-other)))))

  pub read_place_order_response-Shrinks : (tag : ℕ) → Shrinks (read_place_order_response w tag)
  unfolding read_place_order_response
  read_place_order_response-Shrinks tag =
      Shrinks-if (eqb tag 10) _ _
        (Shrinks-into (decode_nested w (read_order_result w) base_order_result)
          (λ m v. record m { order = some v })
          (decode_nested-IsReader w (read_order_result w) (read_order_result-Shrinks w)
            base_order_result))
        (Shrinks-other)
