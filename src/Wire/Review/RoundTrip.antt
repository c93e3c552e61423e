-- ===== src/Wire/Review/RoundTrip.antt =====
-- What `decode` makes of the bytes of `encode`, for the messages of the parent module.
use opentelemetry_demo_mb3r.Prelude.{◌^◌, ◌<◌, ◌≡◌, refl, some, [], All, length, arith}
use opentelemetry_demo_mb3r.Proto.{
  GetAverageProductReviewScoreRequest, GetAverageProductReviewScoreResponse,
  GetProductReviewsRequest, GetProductReviewsResponse, ProductReview,
}
use opentelemetry_demo_mb3r.Wire.{Wire}
use opentelemetry_demo_mb3r.Wire.Reading.{Takes, Takes-then, Takes-string, decode_all-Takes}
use opentelemetry_demo_mb3r.Wire.Nesting.{Takes-messages}
use opentelemetry_demo_mb3r.Wire.Review.{
  base_product_review, encode_product_review, read_product_review, decode_product_review,
  base_get_product_reviews_request, encode_get_product_reviews_request,
  read_get_product_reviews_request, decode_get_product_reviews_request,
  base_get_average_product_review_score_request, encode_get_average_product_review_score_request,
  read_get_average_product_review_score_request, decode_get_average_product_review_score_request,
  base_get_average_product_review_score_response, encode_get_average_product_review_score_response,
  read_get_average_product_review_score_response, decode_get_average_product_review_score_response,
  base_get_product_reviews_response, encode_get_product_reviews_response,
  read_get_product_reviews_response, decode_get_product_reviews_response,
}

module _ (w : Wire) where
  pub Takes-product_review :
      (m : ProductReview)
      → Takes w (read_product_review w) (encode_product_review w m) base_product_review m
  unfolding encode_product_review read_product_review
  Takes-product_review m =
      Takes-then w (read_product_review w)
        (Takes-then w (read_product_review w)
          (Takes-string w (read_product_review w) 10
            (λ v. record { username = v; description = ""; score = "" }) m.username (omega arith)
            (λ bs. refl))
          (Takes-string w (read_product_review w) 18
            (λ v. record { username = m.username; description = v; score = "" }) m.description
            (omega arith) (λ bs. refl)))
        (Takes-string w (read_product_review w) 26
          (λ v. record { username = m.username; description = m.description; score = v }) m.score
          (omega arith) (λ bs. refl))

  pub decode_product_review-encode_product_review :
      (m : ProductReview) → decode_product_review w (encode_product_review w m) ≡ some m
  unfolding decode_product_review
  decode_product_review-encode_product_review m =
      decode_all-Takes w (read_product_review w) (Takes-product_review m)

  pub Takes-get_product_reviews_request :
      (m : GetProductReviewsRequest)
      → Takes w
          (read_get_product_reviews_request w)
          (encode_get_product_reviews_request w m)
          base_get_product_reviews_request
          m
  unfolding encode_get_product_reviews_request read_get_product_reviews_request
  Takes-get_product_reviews_request m =
      Takes-string w (read_get_product_reviews_request w) 10 (λ v. record { product_id = v })
        m.product_id (omega arith) (λ bs. refl)

  pub decode_get_product_reviews_request-encode_get_product_reviews_request :
      (m : GetProductReviewsRequest)
      → decode_get_product_reviews_request w (encode_get_product_reviews_request w m) ≡ some m
  unfolding decode_get_product_reviews_request
  decode_get_product_reviews_request-encode_get_product_reviews_request m =
      decode_all-Takes w (read_get_product_reviews_request w) (Takes-get_product_reviews_request m)

  pub Takes-get_average_product_review_score_request :
      (m : GetAverageProductReviewScoreRequest)
      → Takes w
          (read_get_average_product_review_score_request w)
          (encode_get_average_product_review_score_request w m)
          base_get_average_product_review_score_request
          m
  unfolding encode_get_average_product_review_score_request
      read_get_average_product_review_score_request
  Takes-get_average_product_review_score_request m =
      Takes-string w (read_get_average_product_review_score_request w) 10
        (λ v. record { product_id = v }) m.product_id (omega arith) (λ bs. refl)

  pub decode_get_average_product_review_score_request-encode_get_average_product_review_score_request :
      (m : GetAverageProductReviewScoreRequest)
      → decode_get_average_product_review_score_request w
          (encode_get_average_product_review_score_request w m)
        ≡ some m
  unfolding decode_get_average_product_review_score_request
  decode_get_average_product_review_score_request-encode_get_average_product_review_score_request
        m =
      decode_all-Takes w (read_get_average_product_review_score_request w)
        (Takes-get_average_product_review_score_request m)

  pub Takes-get_average_product_review_score_response :
      (m : GetAverageProductReviewScoreResponse)
      → Takes w
          (read_get_average_product_review_score_response w)
          (encode_get_average_product_review_score_response w m)
          base_get_average_product_review_score_response
          m
  unfolding encode_get_average_product_review_score_response
      read_get_average_product_review_score_response
  Takes-get_average_product_review_score_response m =
      Takes-string w (read_get_average_product_review_score_response w) 10
        (λ v. record { average_score = v }) m.average_score (omega arith) (λ bs. refl)

  pub decode_get_average_product_review_score_response-encode_get_average_product_review_score_response :
      (m : GetAverageProductReviewScoreResponse)
      → decode_get_average_product_review_score_response w
          (encode_get_average_product_review_score_response w m)
        ≡ some m
  unfolding decode_get_average_product_review_score_response
  decode_get_average_product_review_score_response-encode_get_average_product_review_score_response
        m =
      decode_all-Takes w (read_get_average_product_review_score_response w)
        (Takes-get_average_product_review_score_response m)

  abbrev pub FitsGetProductReviewsResponse : GetProductReviewsResponse → Type 0
  FitsGetProductReviewsResponse m =
      All (λ x. (length (encode_product_review w x) < 2 ^ 32)) m.product_reviews

  pub Takes-get_product_reviews_response :
      (m : GetProductReviewsResponse)
      → FitsGetProductReviewsResponse m
      → Takes w
          (read_get_product_reviews_response w)
          (encode_get_product_reviews_response w m)
          base_get_product_reviews_response
          m
  unfolding encode_get_product_reviews_response read_get_product_reviews_response
  Takes-get_product_reviews_response m h =
      Takes-messages w (read_get_product_reviews_response w) (read_product_review w)
        (encode_product_review w) base_product_review 10 (λ v. record { product_reviews = v }) []
        m.product_reviews (omega arith) (λ x p. (Takes-product_review x, p)) h (λ before bs. refl)

  pub decode_get_product_reviews_response-encode_get_product_reviews_response :
      (m : GetProductReviewsResponse)
      → FitsGetProductReviewsResponse m
      → decode_get_product_reviews_response w (encode_get_product_reviews_response w m) ≡ some m
  unfolding decode_get_product_reviews_response
  decode_get_product_reviews_response-encode_get_product_reviews_response m h =
      decode_all-Takes w (read_get_product_reviews_response w)
        (Takes-get_product_reviews_response m h)
