-- ===== src/Wire/Recommendation/Fuel.antt =====
-- The bytes that the cases of the parent module's `decode` leave.
use opentelemetry_demo_mb3r.Prelude.{ℕ, eqb, [], ◌∷◌, ◌++◌}
use opentelemetry_demo_mb3r.Wire.{Wire}
use opentelemetry_demo_mb3r.Wire.Fuel.{Shrinks, Shrinks-if, Shrinks-into, Shrinks-other}
use opentelemetry_demo_mb3r.Wire.Recommendation.{
  read_list_recommendations_request, read_list_recommendations_response,
}

module _ (w : Wire) where
  pub read_list_recommendations_request-Shrinks :
      (tag : ℕ) → Shrinks (read_list_recommendations_request w tag)
  unfolding read_list_recommendations_request
  read_list_recommendations_request-Shrinks tag =
      Shrinks-if (eqb tag 10) _ _
        (Shrinks-into w.read_string (λ m v. record m { user_id = v }) w.string_takes)
        (Shrinks-if (eqb tag 18) _ _
          (Shrinks-into w.read_string (λ m v. record m { product_ids = m.product_ids ++ v ∷ [] })
            w.string_takes)
          (Shrinks-other))

  pub read_list_recommendations_response-Shrinks :
      (tag : ℕ) → Shrinks (read_list_recommendations_response w tag)
  unfolding read_list_recommendations_response
  read_list_recommendations_response-Shrinks tag =
      Shrinks-if (eqb tag 10) _ _
        (Shrinks-into w.read_string (λ m v. record m { product_ids = m.product_ids ++ v ∷ [] })
          w.string_takes)
        (Shrinks-other)
