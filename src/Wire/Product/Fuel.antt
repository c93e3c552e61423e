-- ===== src/Wire/Product/Fuel.antt =====
-- The bytes that the cases of the parent module's `decode` leave.
use opentelemetry_demo_mb3r.Prelude.{◌≢◌, Option, ℕ, ◌<◌, some, eqb, [], ◌∷◌, ◌++◌, length}
use opentelemetry_demo_mb3r.Proto.{ListProductsResponse, Product, Money}
use opentelemetry_demo_mb3r.Wire.{Bytes, Wire, goes_on, run_loop, decode_nested}
use opentelemetry_demo_mb3r.Wire.Fuel.{
  Shrinks, Shrinks-if, Shrinks-into, Shrinks-other, decode_nested-IsReader, run_loop_ends,
}
use opentelemetry_demo_mb3r.Wire.Product.{
  base_product, read_product, read_get_product_request, read_list_products_response,
}
use opentelemetry_demo_mb3r.Wire.Money.{base_money, read_money}
use opentelemetry_demo_mb3r.Wire.Money.Fuel.{read_money-Shrinks}

module _ (w : Wire) where
  pub read_product-Shrinks : (tag : ℕ) → Shrinks (read_product w tag)
  unfolding read_product
  read_product-Shrinks tag =
      Shrinks-if (eqb tag 10) _ _
        (Shrinks-into w.read_string (λ m v. record m { id = v }) w.string_takes)
        (Shrinks-if (eqb tag 18) _ _
          (Shrinks-into w.read_string (λ m v. record m { name = v }) w.string_takes)
          (Shrinks-if (eqb tag 26) _ _
            (Shrinks-into w.read_string (λ m v. record m { description = v }) w.string_takes)
            (Shrinks-if (eqb tag 34) _ _
              (Shrinks-into w.read_string (λ m v. record m { picture = v }) w.string_takes)
              (Shrinks-if (eqb tag 42) _ _
                (Shrinks-into (decode_nested w (read_money w) base_money)
                  (λ m v. record m { price_usd = some v })
                  (decode_nested-IsReader w (read_money w) (read_money-Shrinks w) base_money))
                (Shrinks-if (eqb tag 50) _ _
                  (Shrinks-into w.read_string
                    (λ m v. record m { categories = m.categories ++ v ∷ [] }) w.string_takes)
                  (Shrinks-other))))))

  pub read_get_product_request-Shrinks : (tag : ℕ) → Shrinks (read_get_product_request w tag)
  unfolding read_get_product_request
  read_get_product_request-Shrinks tag =
      Shrinks-if (eqb tag 10) _ _
        (Shrinks-into w.read_string (λ m v. record m { id = v }) w.string_takes) (Shrinks-other)

  pub read_list_products_response-Shrinks : (tag : ℕ) → Shrinks (read_list_products_response w tag)
  unfolding read_list_products_response
  read_list_products_response-Shrinks tag =
      Shrinks-if (eqb tag 10) _ _
        (Shrinks-into (decode_nested w (read_product w) base_product)
          (λ m v. record m { products = m.products ++ v ∷ [] })
          (decode_nested-IsReader w (read_product w) (read_product-Shrinks) base_product))
        (Shrinks-other)

  -- If more rounds are allowed than there are bytes, then the loop of `decode` for a list of products
  -- ends, whatever the bytes are, where it is to stop, and what it has read before; and so do the loops
  -- that its rounds call, for a product and for its price.
  pub decode_list_products_response_ends :
      (fuel : ℕ) (end : Option ℕ) (bs : Bytes) (ps : ListProductsResponse) (p : Product) (m : Money)
      → length bs < fuel
      → (run_loop w (read_list_products_response w) fuel end ps bs ≢ goes_on)
        × (run_loop w (read_product w) fuel end p bs ≢ goes_on)
        × (run_loop w (read_money w) fuel end m bs ≢ goes_on)
  decode_list_products_response_ends fuel end bs ps p m h = (
    run_loop_ends w (read_list_products_response w) read_list_products_response-Shrinks fuel end ps
        bs h,
    run_loop_ends w (read_product w) read_product-Shrinks fuel end p bs h,
    run_loop_ends w (read_money w) (read_money-Shrinks w) fuel end m bs h,
  )
