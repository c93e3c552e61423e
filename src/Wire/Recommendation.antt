-- ===== src/Wire/Recommendation.antt =====
-- `encode` and `decode` of `ListRecommendationsRequest`, `ListRecommendationsResponse`
-- in src/frontend/protos/demo.ts.
pub mod RoundTrip
pub mod Fuel
use opentelemetry_demo_mb3r.Prelude.{ℕ, Option, [], ◌∷◌, ◌++◌, eqb, if◌then◌else◌}
use opentelemetry_demo_mb3r.Proto.{ListRecommendationsRequest, ListRecommendationsResponse}
use opentelemetry_demo_mb3r.Wire.{
  Bytes, Wire, Step, other, into, decode_all, put_string, put_strings,
}

abbrev pub base_list_recommendations_request : ListRecommendationsRequest
base_list_recommendations_request = record { user_id = ""; product_ids = [] }

abbrev pub base_list_recommendations_response : ListRecommendationsResponse
base_list_recommendations_response = record { product_ids = [] }

module _ (w : Wire) where
  unfoldable pub encode_list_recommendations_request : ListRecommendationsRequest → Bytes
  encode_list_recommendations_request m =
      put_string w 10 m.user_id ++ put_strings w 18 m.product_ids

  unfoldable pub read_list_recommendations_request :
      ℕ → ListRecommendationsRequest → Bytes → Step (ListRecommendationsRequest)
  read_list_recommendations_request tag m bs =
      if eqb tag 10
      then into (λ v. record m { user_id = v }) (w.read_string bs)
      else if eqb tag 18
      then into (λ v. record m { product_ids = m.product_ids ++ v ∷ [] }) (w.read_string bs)
      else other

  unfoldable pub decode_list_recommendations_request : Bytes → Option (ListRecommendationsRequest)
  unfolding decode_all read_list_recommendations_request
  decode_list_recommendations_request bs =
      decode_all w read_list_recommendations_request base_list_recommendations_request bs

  unfoldable pub encode_list_recommendations_response : ListRecommendationsResponse → Bytes
  encode_list_recommendations_response m = put_strings w 10 m.product_ids

  unfoldable pub read_list_recommendations_response :
      ℕ → ListRecommendationsResponse → Bytes → Step (ListRecommendationsResponse)
  read_list_recommendations_response tag m bs =
      if eqb tag 10
      then into (λ v. record m { product_ids = m.product_ids ++ v ∷ [] }) (w.read_string bs)
      else other

  unfoldable pub decode_list_recommendations_response : Bytes → Option (ListRecommendationsResponse)
  unfolding decode_all read_list_recommendations_response
  decode_list_recommendations_response bs =
      decode_all w read_list_recommendations_response base_list_recommendations_response bs
