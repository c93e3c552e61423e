-- ===== src/Wire/Order/Fuel.antt =====
-- The bytes that the cases of the parent module's `decode` leave.
use opentelemetry_demo_mb3r.Prelude.{ℕ, some, eqb, [], ◌∷◌, ◌++◌}
use opentelemetry_demo_mb3r.Wire.{Wire, decode_nested}
use opentelemetry_demo_mb3r.Wire.Fuel.{
  Shrinks, Shrinks-if, Shrinks-into, Shrinks-other, decode_nested-IsReader,
}
use opentelemetry_demo_mb3r.Wire.Order.{
  base_address, read_address, read_credit_card_info, base_order_item, read_order_item,
  read_order_result,
}
use opentelemetry_demo_mb3r.Wire.Cart.{base_cart_item, read_cart_item}
use opentelemetry_demo_mb3r.Wire.Cart.Fuel.{read_cart_item-Shrinks}
use opentelemetry_demo_mb3r.Wire.Money.{base_money, read_money}
use opentelemetry_demo_mb3r.Wire.Money.Fuel.{read_money-Shrinks}

module _ (w : Wire) where
  pub read_address-Shrinks : (tag : ℕ) → Shrinks (read_address w tag)
  unfolding read_address
  read_address-Shrinks tag =
      Shrinks-if (eqb tag 10) _ _
        (Shrinks-into w.read_string (λ m v. record m { street_address = v }) w.string_takes)
        (Shrinks-if (eqb tag 18) _ _
          (Shrinks-into w.read_string (λ m v. record m { city = v }) w.string_takes)
          (Shrinks-if (eqb tag 26) _ _
            (Shrinks-into w.read_string (λ m v. record m { state = v }) w.string_takes)
            (Shrinks-if (eqb tag 34) _ _
              (Shrinks-into w.read_string (λ m v. record m { country = v }) w.string_takes)
              (Shrinks-if (eqb tag 42) _ _
                (Shrinks-into w.read_string (λ m v. record m { zip_code = v }) w.string_takes)
                (Shrinks-other)))))

  pub read_credit_card_info-Shrinks : (tag : ℕ) → Shrinks (read_credit_card_info w tag)
  unfolding read_credit_card_info
  read_credit_card_info-Shrinks tag =
      Shrinks-if (eqb tag 10) _ _
        (Shrinks-into w.read_string (λ m v. record m { credit_card_number = v }) w.string_takes)
        (Shrinks-if (eqb tag 16) _ _
          (Shrinks-into w.read_int32 (λ m v. record m { credit_card_cvv = v }) w.int32_takes)
          (Shrinks-if (eqb tag 24) _ _
            (Shrinks-into w.read_int32 (λ m v. record m { credit_card_expiration_year = v })
              w.int32_takes)
            (Shrinks-if (eqb tag 32) _ _
              (Shrinks-into w.read_int32 (λ m v. record m { credit_card_expiration_month = v })
                w.int32_takes)
              (Shrinks-other))))

  pub read_order_item-Shrinks : (tag : ℕ) → Shrinks (read_order_item w tag)
  unfolding read_order_item
  read_order_item-Shrinks tag =
      Shrinks-if (eqb tag 10) _ _
        (Shrinks-into (decode_nested w (read_cart_item w) base_cart_item)
          (λ m v. record m { item = some v })
          (decode_nested-IsReader w (read_cart_item w) (read_cart_item-Shrinks w) base_cart_item))
        (Shrinks-if (eqb tag 18) _ _
          (Shrinks-into (decode_nested w (read_money w) base_money)
            (λ m v. record m { cost = some v })
            (decode_nested-IsReader w (read_money w) (read_money-Shrinks w) base_money))
          (Shrinks-other))

  pub read_order_result-Shrinks : (tag : ℕ) → Shrinks (read_order_result w tag)
  unfolding read_order_result
  read_order_result-Shrinks tag =
      Shrinks-if (eqb tag 10) _ _
        (Shrinks-into w.read_string (λ m v. record m { order_id = v }) w.string_takes)
        (Shrinks-if (eqb tag 18) _ _
          (Shrinks-into w.read_string (λ m v. record m { shipping_tracking_id = v }) w.string_takes)
          (Shrinks-if (eqb tag 26) _ _
            (Shrinks-into (decode_nested w (read_money w) base_money)
              (λ m v. record m { shipping_cost = some v })
              (decode_nested-IsReader w (read_money w) (read_money-Shrinks w) base_money))
            (Shrinks-if (eqb tag 34) _ _
              (Shrinks-into (decode_nested w (read_address w) base_address)
                (λ m v. record m { shipping_address = some v })
                (decode_nested-IsReader w (read_address w) (read_address-Shrinks) base_address))
              (Shrinks-if (eqb tag 42) _ _
                (Shrinks-into (decode_nested w (read_order_item w) base_order_item)
                  (λ m v. record m { items = m.items ++ v ∷ [] })
                  (decode_nested-IsReader w (read_order_item w) (read_order_item-Shrinks)
                    base_order_item))
                (Shrinks-other)))))
