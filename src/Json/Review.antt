-- ===== src/Json/Review.antt =====
-- `toJSON` and `fromJSON` of `ProductReview`, `GetProductReviewsRequest`,
-- `GetAverageProductReviewScoreRequest`, `GetAverageProductReviewScoreResponse`,
-- `GetProductReviewsResponse` in src/frontend/protos/demo.ts.
pub mod RoundTrip
use opentelemetry_demo_mb3r.Prelude.{String, Option, some, List, [], ◌∷◌}
use opentelemetry_demo_mb3r.Proto.{
  GetAverageProductReviewScoreRequest, GetAverageProductReviewScoreResponse,
  GetProductReviewsRequest, GetProductReviewsResponse, ProductReview,
}
use opentelemetry_demo_mb3r.Json.{
  Json, object, Conversions, get, first_set, first_array, with_fields, ◌>>=◌, as_text, as_messages,
  text_value, messages_value, fields_of,
}

abbrev pub product_review_fields : ProductReview → List (String × Option Json)
product_review_fields m =
    ("username", text_value m.username)
    ∷ ("description", text_value m.description)
    ∷ ("score", text_value m.score)
    ∷ []

unfoldable pub to_json_product_review : ProductReview → Json
to_json_product_review m = object (fields_of (product_review_fields m))

abbrev pub get_product_reviews_request_fields :
    GetProductReviewsRequest → List (String × Option Json)
get_product_reviews_request_fields m = ("productId", text_value m.product_id) ∷ []

unfoldable pub to_json_get_product_reviews_request : GetProductReviewsRequest → Json
to_json_get_product_reviews_request m = object (fields_of (get_product_reviews_request_fields m))

abbrev pub get_average_product_review_score_request_fields :
    GetAverageProductReviewScoreRequest → List (String × Option Json)
get_average_product_review_score_request_fields m = ("productId", text_value m.product_id) ∷ []

unfoldable pub to_json_get_average_product_review_score_request :
    GetAverageProductReviewScoreRequest → Json
to_json_get_average_product_review_score_request m =
    object (fields_of (get_average_product_review_score_request_fields m))

abbrev pub get_average_product_review_score_response_fields :
    GetAverageProductReviewScoreResponse → List (String × Option Json)
get_average_product_review_score_response_fields m =
    ("averageScore", text_value m.average_score) ∷ []

unfoldable pub to_json_get_average_product_review_score_response :
    GetAverageProductReviewScoreResponse → Json
to_json_get_average_product_review_score_response m =
    object (fields_of (get_average_product_review_score_response_fields m))

abbrev pub get_product_reviews_response_fields :
    GetProductReviewsResponse → List (String × Option Json)
get_product_reviews_response_fields m =
    ("productReviews", messages_value to_json_product_review m.product_reviews) ∷ []

unfoldable pub to_json_get_product_reviews_response : GetProductReviewsResponse → Json
to_json_get_product_reviews_response m = object (fields_of (get_product_reviews_response_fields m))

module _ (c : Conversions) where
  abbrev pub read_json_product_review : (String → Option Json) → Option ProductReview
  read_json_product_review look = some record {
    username = as_text c (first_set ("username" ∷ []) look);
    description = as_text c (first_set ("description" ∷ []) look);
    score = as_text c (first_set ("score" ∷ []) look);
  }

  unfoldable pub from_json_product_review : Json → Option (ProductReview)
  from_json_product_review = with_fields read_json_product_review

  abbrev pub read_json_get_product_reviews_request :
      (String → Option Json) → Option GetProductReviewsRequest
  read_json_get_product_reviews_request look =
      some record { product_id = as_text c (first_set ("productId" ∷ "product_id" ∷ []) look) }

  unfoldable pub from_json_get_product_reviews_request : Json → Option (GetProductReviewsRequest)
  from_json_get_product_reviews_request = with_fields read_json_get_product_reviews_request

  abbrev pub read_json_get_average_product_review_score_request :
      (String → Option Json) → Option GetAverageProductReviewScoreRequest
  read_json_get_average_product_review_score_request look =
      some record { product_id = as_text c (first_set ("productId" ∷ "product_id" ∷ []) look) }

  unfoldable pub from_json_get_average_product_review_score_request :
      Json → Option (GetAverageProductReviewScoreRequest)
  from_json_get_average_product_review_score_request =
      with_fields read_json_get_average_product_review_score_request

  abbrev pub read_json_get_average_product_review_score_response :
      (String → Option Json) → Option GetAverageProductReviewScoreResponse
  read_json_get_average_product_review_score_response look =
      some record {
        average_score = as_text c (first_set ("averageScore" ∷ "average_score" ∷ []) look);
      }

  unfoldable pub from_json_get_average_product_review_score_response :
      Json → Option (GetAverageProductReviewScoreResponse)
  from_json_get_average_product_review_score_response =
      with_fields read_json_get_average_product_review_score_response

  abbrev pub read_json_get_product_reviews_response :
      (String → Option Json) → Option GetProductReviewsResponse
  read_json_get_product_reviews_response look =
      as_messages from_json_product_review
        (first_array ("productReviews" ∷ "product_reviews" ∷ []) look)
      >>= λ product_reviews. some record { product_reviews = product_reviews }

  unfoldable pub from_json_get_product_reviews_response : Json → Option (GetProductReviewsResponse)
  from_json_get_product_reviews_response j = read_json_get_product_reviews_response (get j)
