-- ===== src/Json/Review/RoundTrip.antt =====
-- What `toJSON` writes of `ProductReview`, `GetProductReviewsRequest`,
-- `GetAverageProductReviewScoreRequest`, `GetAverageProductReviewScoreResponse`,
-- `GetProductReviewsResponse`, `fromJSON` reads back.
use opentelemetry_demo_mb3r.Prelude.{◌≡◌, refl, ap, ◌∙◌, some}
use opentelemetry_demo_mb3r.Proto.{
  GetAverageProductReviewScoreRequest, GetAverageProductReviewScoreResponse,
  GetProductReviewsRequest, GetProductReviewsResponse, ProductReview,
}
use opentelemetry_demo_mb3r.Json.{Conversions}
use opentelemetry_demo_mb3r.Json.Fields.{
  get-fields_of, as_text-text_value, as_messages-messages_value,
}
use opentelemetry_demo_mb3r.Json.Review.{
  from_json_product_review, to_json_product_review, read_json_product_review, product_review_fields,
  from_json_get_product_reviews_request, to_json_get_product_reviews_request,
  read_json_get_product_reviews_request, get_product_reviews_request_fields,
  from_json_get_average_product_review_score_request,
  to_json_get_average_product_review_score_request,
  read_json_get_average_product_review_score_request,
  get_average_product_review_score_request_fields,
  from_json_get_average_product_review_score_response,
  to_json_get_average_product_review_score_response,
  read_json_get_average_product_review_score_response,
  get_average_product_review_score_response_fields, from_json_get_product_reviews_response,
  to_json_get_product_reviews_response, read_json_get_product_reviews_response,
  get_product_reviews_response_fields,
}

pub from_json_product_review-to_json_product_review :
    (c : Conversions) (m : ProductReview)
    → from_json_product_review c (to_json_product_review m) ≡ some m
unfolding from_json_product_review to_json_product_review
from_json_product_review-to_json_product_review c m =
    ap (read_json_product_review c) (get-fields_of (product_review_fields m))
    ∙ rw
        (
          as_text-text_value c m.username,
          as_text-text_value c m.description,
          as_text-text_value c m.score,
        )
        refl

pub from_json_get_product_reviews_request-to_json_get_product_reviews_request :
    (c : Conversions) (m : GetProductReviewsRequest)
    → from_json_get_product_reviews_request c (to_json_get_product_reviews_request m) ≡ some m
unfolding from_json_get_product_reviews_request to_json_get_product_reviews_request
from_json_get_product_reviews_request-to_json_get_product_reviews_request c m =
    ap (read_json_get_product_reviews_request c)
      (get-fields_of (get_product_reviews_request_fields m))
    ∙ rw (as_text-text_value c m.product_id) refl

pub from_json_get_average_product_review_score_request-to_json_get_average_product_review_score_request :
    (c : Conversions) (m : GetAverageProductReviewScoreRequest)
    → from_json_get_average_product_review_score_request c
        (to_json_get_average_product_review_score_request m)
      ≡ some m
unfolding from_json_get_average_product_review_score_request
    to_json_get_average_product_review_score_request
from_json_get_average_product_review_score_request-to_json_get_average_product_review_score_request
      c m =
    ap (read_json_get_average_product_review_score_request c)
      (get-fields_of (get_average_product_review_score_request_fields m))
    ∙ rw (as_text-text_value c m.product_id) refl

pub from_json_get_average_product_review_score_response-to_json_get_average_product_review_score_response :
    (c : Conversions) (m : GetAverageProductReviewScoreResponse)
    → from_json_get_average_product_review_score_response c
        (to_json_get_average_product_review_score_response m)
      ≡ some m
unfolding from_json_get_average_product_review_score_response
    to_json_get_average_product_review_score_response
from_json_get_average_product_review_score_response-to_json_get_average_product_review_score_response
      c m =
    ap (read_json_get_average_product_review_score_response c)
      (get-fields_of (get_average_product_review_score_response_fields m))
    ∙ rw (as_text-text_value c m.average_score) refl

pub from_json_get_product_reviews_response-to_json_get_product_reviews_response :
    (c : Conversions) (m : GetProductReviewsResponse)
    → from_json_get_product_reviews_response c (to_json_get_product_reviews_response m) ≡ some m
unfolding from_json_get_product_reviews_response to_json_get_product_reviews_response
    to_json_product_review
from_json_get_product_reviews_response-to_json_get_product_reviews_response c m =
    ap (read_json_get_product_reviews_response c)
      (get-fields_of (get_product_reviews_response_fields m))
    ∙ rw
        (as_messages-messages_value (from_json_product_review c) to_json_product_review
          (from_json_product_review-to_json_product_review c) m.product_reviews)
        refl
