-- ===== src/Wire/Cart/Fuel.antt =====
-- The bytes that the cases of the parent module's `decode` leave.
use opentelemetry_demo_mb3r.Prelude.{ℕ, some, eqb, [], ◌∷◌, ◌++◌}
use opentelemetry_demo_mb3r.Wire.{Wire, decode_nested}
use opentelemetry_demo_mb3r.Wire.Fuel.{
  Shrinks, Shrinks-if, Shrinks-into, Shrinks-other, decode_nested-IsReader,
}
use opentelemetry_demo_mb3r.Wire.Cart.{
  base_cart_item, read_cart_item, read_empty_cart_request, read_get_cart_request, read_empty,
  read_add_item_request, read_cart,
}

module _ (w : Wire) where
  pub read_cart_item-Shrinks : (tag : ℕ) → Shrinks (read_cart_item w tag)
  unfolding read_cart_item
  read_cart_item-Shrinks tag =
      Shrinks-if (eqb tag 10) _ _
        (Shrinks-into w.read_string (λ m v. record m { product_id = v }) w.string_takes)
        (Shrinks-if (eqb tag 16) _ _
          (Shrinks-into w.read_int32 (λ m v. record m { quantity = v }) w.int32_takes)
          (Shrinks-other))

  pub read_empty_cart_request-Shrinks : (tag : ℕ) → Shrinks (read_empty_cart_request w tag)
  unfolding read_empty_cart_request
  read_empty_cart_request-Shrinks tag =
      Shrinks-if (eqb tag 10) _ _
        (Shrinks-into w.read_string (λ m v. record m { user_id = v }) w.string_takes)
        (Shrinks-other)

  pub read_get_cart_request-Shrinks : (tag : ℕ) → Shrinks (read_get_cart_request w tag)
  unfolding read_get_cart_request
  read_get_cart_request-Shrinks tag =
      Shrinks-if (eqb tag 10) _ _
        (Shrinks-into w.read_string (λ m v. record m { user_id = v }) w.string_takes)
        (Shrinks-other)

  pub read_empty-Shrinks : (tag : ℕ) → Shrinks (read_empty w tag)
  unfolding read_empty
  read_empty-Shrinks tag = Shrinks-other

  pub read_add_item_request-Shrinks : (tag : ℕ) → Shrinks (read_add_item_request w tag)
  unfolding read_add_item_request
  read_add_item_request-Shrinks tag =
      Shrinks-if (eqb tag 10) _ _
        (Shrinks-into w.read_string (λ m v. record m { user_id = v }) w.string_takes)
        (Shrinks-if (eqb tag 18) _ _
          (Shrinks-into (decode_nested w (read_cart_item w) base_cart_item)
            (λ m v. record m { item = some v })
            (decode_nested-IsReader w (read_cart_item w) (read_cart_item-Shrinks) base_cart_item))
          (Shrinks-other))

  pub read_cart-Shrinks : (tag : ℕ) → Shrinks (read_cart w tag)
  unfolding read_cart
  read_cart-Shrinks tag =
      Shrinks-if (eqb tag 10) _ _
        (Shrinks-into w.read_string (λ m v. record m { user_id = v }) w.string_takes)
        (Shrinks-if (eqb tag 18) _ _
          (Shrinks-into (decode_nested w (read_cart_item w) base_cart_item)
            (λ m v. record m { items = m.items ++ v ∷ [] })
            (decode_nested-IsReader w (read_cart_item w) (read_cart_item-Shrinks) base_cart_item))
          (Shrinks-other))
