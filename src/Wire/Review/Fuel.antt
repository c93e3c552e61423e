-- ===== src/Wire/Review/Fuel.antt =====
-- The bytes that the cases of the parent module's `decode` leave.
use opentelemetry_demo_mb3r.Prelude.{ℕ, eqb, [], ◌∷◌, ◌++◌}
use opentelemetry_demo_mb3r.Wire.{Wire, decode_nested}
use opentelemetry_demo_mb3r.Wire.Fuel.{
  Shrinks, Shrinks-if, Shrinks-into, Shrinks-other, decode_nested-IsReader,
}
use opentelemetry_demo_mb3r.Wire.Review.{
  base_product_review, read_product_review, read_get_product_reviews_request,
  read_get_average_product_review_score_request, read_get_average_product_review_score_response,
  read_get_product_reviews_response,
}

module _ (w : Wire) where
  pub read_product_review-Shrinks : (tag : ℕ) → Shrinks (read_product_review w tag)
  unfolding read_product_review
  read_product_review-Shrinks tag =
      Shrinks-if (eqb tag 10) _ _
        (Shrinks-into w.read_string (λ m v. record m { username = v }) w.string_takes)
        (Shrinks-if (eqb tag 18) _ _
          (Shrinks-into w.read_string (λ m v. record m { description = v }) w.string_takes)
          (Shrinks-if (eqb tag 26) _ _
            (Shrinks-into w.read_string (λ m v. record m { score = v }) w.string_takes)
            (Shrinks-other)))

  pub read_get_product_reviews_request-Shrinks :
      (tag : ℕ) → Shrinks (read_get_product_reviews_request w tag)
  unfolding read_get_product_reviews_request
  read_get_product_reviews_request-Shrinks tag =
      Shrinks-if (eqb tag 10) _ _
        (Shrinks-into w.read_string (λ m v. record m { product_id = v }) w.string_takes)
        (Shrinks-other)

  pub read_get_average_product_review_score_request-Shrinks :
      (tag : ℕ) → Shrinks (read_get_average_product_review_score_request w tag)
  unfolding read_get_average_product_review_score_request
  read_get_average_product_review_score_request-Shrinks tag =
      Shrinks-if (eqb tag 10) _ _
        (Shrinks-into w.read_string (λ m v. record m { product_id = v }) w.string_takes)
        (Shrinks-other)

  pub read_get_average_product_review_score_response-Shrinks :
      (tag : ℕ) → Shrinks (read_get_average_product_review_score_response w tag)
  unfolding read_get_average_product_review_score_response
  read_get_average_product_review_score_response-Shrinks tag =
      Shrinks-if (eqb tag 10) _ _
        (Shrinks-into w.read_string (λ m v. record m { average_score = v }) w.string_takes)
        (Shrinks-other)

  pub read_get_product_reviews_response-Shrinks :
      (tag : ℕ) → Shrinks (read_get_product_reviews_response w tag)
  unfolding read_get_product_reviews_response
  read_get_product_reviews_response-Shrinks tag =
      Shrinks-if (eqb tag 10) _ _
        (Shrinks-into (decode_nested w (read_product_review w) base_product_review)
          (λ m v. record m { product_reviews = m.product_reviews ++ v ∷ [] })
          (decode_nested-IsReader w (read_product_review w) (read_product_review-Shrinks)
            base_product_review))
        (Shrinks-other)
