-- ===== src/Wire/Ad/Fuel.antt =====
-- The bytes that the cases of the parent module's `decode` leave.
use opentelemetry_demo_mb3r.Prelude.{ℕ, eqb, [], ◌∷◌, ◌++◌}
use opentelemetry_demo_mb3r.Wire.{Wire, decode_nested}
use opentelemetry_demo_mb3r.Wire.Fuel.{
  Shrinks, Shrinks-if, Shrinks-into, Shrinks-other, decode_nested-IsReader,
}
use opentelemetry_demo_mb3r.Wire.Ad.{read_ad_request, base_ad, read_ad, read_ad_response}

module _ (w : Wire) where
  pub read_ad_request-Shrinks : (tag : ℕ) → Shrinks (read_ad_request w tag)
  unfolding read_ad_request
  read_ad_request-Shrinks tag =
      Shrinks-if (eqb tag 10) _ _
        (Shrinks-into w.read_string (λ m v. record m { context_keys = m.context_keys ++ v ∷ [] })
          w.string_takes)
        (Shrinks-other)

  pub read_ad-Shrinks : (tag : ℕ) → Shrinks (read_ad w tag)
  unfolding read_ad
  read_ad-Shrinks tag =
      Shrinks-if (eqb tag 10) _ _
        (Shrinks-into w.read_string (λ m v. record m { redirect_url = v }) w.string_takes)
        (Shrinks-if (eqb tag 18) _ _
          (Shrinks-into w.read_string (λ m v. record m { text = v }) w.string_takes)
          (Shrinks-other))

  pub read_ad_response-Shrinks : (tag : ℕ) → Shrinks (read_ad_response w tag)
  unfolding read_ad_response
  read_ad_response-Shrinks tag =
      Shrinks-if (eqb tag 10) _ _
        (Shrinks-into (decode_nested w (read_ad w) base_ad)
          (λ m v. record m { ads = m.ads ++ v ∷ [] })
          (decode_nested-IsReader w (read_ad w) (read_ad-Shrinks) base_ad))
        (Shrinks-other)
