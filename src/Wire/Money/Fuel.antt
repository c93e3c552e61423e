-- ===== src/Wire/Money/Fuel.antt =====
-- The bytes that the cases of the parent module's `decode` leave.
use opentelemetry_demo_mb3r.Prelude.{ℕ, some, eqb, [], ◌∷◌, ◌++◌}
use opentelemetry_demo_mb3r.Wire.{Wire, decode_nested, to_number}
use opentelemetry_demo_mb3r.Wire.Fuel.{
  Shrinks, Shrinks-if, Shrinks-into, Shrinks-other, to_number-IsReader, decode_nested-IsReader,
}
use opentelemetry_demo_mb3r.Wire.Money.{
  base_money, read_money, read_get_supported_currencies_response, read_currency_conversion_request,
}

module _ (w : Wire) where
  pub read_money-Shrinks : (tag : ℕ) → Shrinks (read_money w tag)
  unfolding read_money
  read_money-Shrinks tag =
      Shrinks-if (eqb tag 10) _ _
        (Shrinks-into w.read_string (λ m v. record m { currency_code = v }) w.string_takes)
        (Shrinks-if (eqb tag 16) _ _
          (Shrinks-into (λ bs. to_number (w.read_int64 bs)) (λ m v. record m { units = v })
            (to_number-IsReader w))
          (Shrinks-if (eqb tag 24) _ _
            (Shrinks-into w.read_int32 (λ m v. record m { nanos = v }) w.int32_takes)
            (Shrinks-other)))

  pub read_get_supported_currencies_response-Shrinks :
      (tag : ℕ) → Shrinks (read_get_supported_currencies_response w tag)
  unfolding read_get_supported_currencies_response
  read_get_supported_currencies_response-Shrinks tag =
      Shrinks-if (eqb tag 10) _ _
        (Shrinks-into w.read_string
          (λ m v. record m { currency_codes = m.currency_codes ++ v ∷ [] }) w.string_takes)
        (Shrinks-other)

  pub read_currency_conversion_request-Shrinks :
      (tag : ℕ) → Shrinks (read_currency_conversion_request w tag)
  unfolding read_currency_conversion_request
  read_currency_conversion_request-Shrinks tag =
      Shrinks-if (eqb tag 10) _ _
        (Shrinks-into (decode_nested w (read_money w) base_money)
          (λ m v. record m { from = some v })
          (decode_nested-IsReader w (read_money w) (read_money-Shrinks) base_money))
        (Shrinks-if (eqb tag 18) _ _
          (Shrinks-into w.read_string (λ m v. record m { to_code = v }) w.string_takes)
          (Shrinks-other))
