-- ===== src/Wire/Review.antt =====
-- `encode` and `decode` of `ProductReview`, `GetProductReviewsRequest`, `GetAverageProductReviewScoreRequest`, `GetAverageProductReviewScoreResponse`, `GetProductReviewsResponse`
-- in src/frontend/protos/demo.ts.
pub mod RoundTrip
pub mod Fuel
use opentelemetry_demo_mb3r.Prelude.{ℕ, Option, [], ◌∷◌, ◌++◌, eqb, if◌then◌else◌}
use opentelemetry_demo_mb3r.Proto.{
  GetAverageProductReviewScoreRequest, GetAverageProductReviewScoreResponse,
  GetProductReviewsRequest, GetProductReviewsResponse, ProductReview,
}
use opentelemetry_demo_mb3r.Wire.{
  Bytes, Wire, Step, other, into, decode_all, decode_nested, put_string, put_messages,
}

abbrev pub base_product_review : ProductReview
base_product_review = record { username = ""; description = ""; score = "" }

abbrev pub base_get_product_reviews_request : GetProductReviewsRequest
base_get_product_reviews_request = record { product_id = "" }

abbrev pub base_get_average_product_review_score_request : GetAverageProductReviewScoreRequest
base_get_average_product_review_score_request = record { product_id = "" }

abbrev pub base_get_average_product_review_score_response : GetAverageProductReviewScoreResponse
base_get_average_product_review_score_response = record { average_score = "" }

abbrev pub base_get_product_reviews_response : GetProductReviewsResponse
base_get_product_reviews_response = record { product_reviews = [] }

module _ (w : Wire) where
  unfoldable pub encode_product_review : ProductReview → Bytes
  encode_product_review m =
      put_string w 10 m.username ++ put_string w 18 m.description ++ put_string w 26 m.score

  unfoldable pub read_product_review : ℕ → ProductReview → Bytes → Step (ProductReview)
  read_product_review tag m bs =
      if eqb tag 10
      then into (λ v. record m { username = v }) (w.read_string bs)
      else if eqb tag 18
      then into (λ v. record m { description = v }) (w.read_string bs)
      else if eqb tag 26
      then into (λ v. record m { score = v }) (w.read_string bs)
      else other

  unfoldable pub decode_product_review : Bytes → Option (ProductReview)
  unfolding decode_all read_product_review
  decode_product_review bs = decode_all w read_product_review base_product_review bs

  unfoldable pub encode_get_product_reviews_request : GetProductReviewsRequest → Bytes
  encode_get_product_reviews_request m = put_string w 10 m.product_id

  unfoldable pub read_get_product_reviews_request :
      ℕ → GetProductReviewsRequest → Bytes → Step (GetProductReviewsRequest)
  read_get_product_reviews_request tag m bs =
      if eqb tag 10 then into (λ v. record m { product_id = v }) (w.read_string bs) else other

  unfoldable pub decode_get_product_reviews_request : Bytes → Option (GetProductReviewsRequest)
  unfolding decode_all read_get_product_reviews_request
  decode_get_product_reviews_request bs =
      decode_all w read_get_product_reviews_request base_get_product_reviews_request bs

  unfoldable pub encode_get_average_product_review_score_request :
      GetAverageProductReviewScoreRequest → Bytes
  encode_get_average_product_review_score_request m = put_string w 10 m.product_id

  unfoldable pub read_get_average_product_review_score_request :
      ℕ → GetAverageProductReviewScoreRequest → Bytes → Step (GetAverageProductReviewScoreRequest)
  read_get_average_product_review_score_request tag m bs =
      if eqb tag 10 then into (λ v. record m { product_id = v }) (w.read_string bs) else other

  unfoldable pub decode_get_average_product_review_score_request :
      Bytes → Option (GetAverageProductReviewScoreRequest)
  unfolding decode_all read_get_average_product_review_score_request
  decode_get_average_product_review_score_request bs =
      decode_all w read_get_average_product_review_score_request
        base_get_average_product_review_score_request bs

  unfoldable pub encode_get_average_product_review_score_response :
      GetAverageProductReviewScoreResponse → Bytes
  encode_get_average_product_review_score_response m = put_string w 10 m.average_score

  unfoldable pub read_get_average_product_review_score_response :
      ℕ → GetAverageProductReviewScoreResponse → Bytes → Step (GetAverageProductReviewScoreResponse)
  read_get_average_product_review_score_response tag m bs =
      if eqb tag 10 then into (λ v. record m { average_score = v }) (w.read_string bs) else other

  unfoldable pub decode_get_average_product_review_score_response :
      Bytes → Option (GetAverageProductReviewScoreResponse)
  unfolding decode_all read_get_average_product_review_score_response
  decode_get_average_product_review_score_response bs =
      decode_all w read_get_average_product_review_score_response
        base_get_average_product_review_score_response bs

  unfoldable pub encode_get_product_reviews_response : GetProductReviewsResponse → Bytes
  unfolding encode_product_review
  encode_get_product_reviews_response m = put_messages w encode_product_review 10 m.product_reviews

  unfoldable pub read_get_product_reviews_response :
      ℕ → GetProductReviewsResponse → Bytes → Step (GetProductReviewsResponse)
  unfolding decode_nested read_product_review
  read_get_product_reviews_response tag m bs =
      if eqb tag 10
      then into (λ v. record m { product_reviews = m.product_reviews ++ v ∷ [] })
          (decode_nested w read_product_review base_product_review bs)
      else other

  unfoldable pub decode_get_product_reviews_response : Bytes → Option (GetProductReviewsResponse)
  unfolding decode_all read_get_product_reviews_response
  decode_get_product_reviews_response bs =
      decode_all w read_get_product_reviews_response base_get_product_reviews_response bs
