-- ===== src/Json/Recommendation.antt =====
-- `toJSON` and `fromJSON` of `ListRecommendationsRequest`, `ListRecommendationsResponse` in
-- src/frontend/protos/demo.ts.
pub mod RoundTrip
use opentelemetry_demo_mb3r.Prelude.{String, Option, some, List, [], ◌∷◌}
use opentelemetry_demo_mb3r.Proto.{ListRecommendationsRequest, ListRecommendationsResponse}
use opentelemetry_demo_mb3r.Json.{
  Json, object, Conversions, get, first_set, first_array, with_fields, as_text, as_texts,
  text_value, texts_value, fields_of,
}

abbrev pub list_recommendations_request_fields :
    ListRecommendationsRequest → List (String × Option Json)
list_recommendations_request_fields m =
    ("userId", text_value m.user_id) ∷ ("productIds", texts_value m.product_ids) ∷ []

unfoldable pub to_json_list_recommendations_request : ListRecommendationsRequest → Json
to_json_list_recommendations_request m = object (fields_of (list_recommendations_request_fields m))

abbrev pub list_recommendations_response_fields :
    ListRecommendationsResponse → List (String × Option Json)
list_recommendations_response_fields m = ("productIds", texts_value m.product_ids) ∷ []

unfoldable pub to_json_list_recommendations_response : ListRecommendationsResponse → Json
to_json_list_recommendations_response m =
    object (fields_of (list_recommendations_response_fields m))

module _ (c : Conversions) where
  abbrev pub read_json_list_recommendations_request :
      (String → Option Json) → Option ListRecommendationsRequest
  read_json_list_recommendations_request look = some record {
    user_id = as_text c (first_set ("userId" ∷ "user_id" ∷ []) look);
    product_ids = as_texts c (first_array ("productIds" ∷ "product_ids" ∷ []) look);
  }

  unfoldable pub from_json_list_recommendations_request : Json → Option (ListRecommendationsRequest)
  from_json_list_recommendations_request = with_fields read_json_list_recommendations_request

  abbrev pub read_json_list_recommendations_response :
      (String → Option Json) → Option ListRecommendationsResponse
  read_json_list_recommendations_response look =
      some
        record { product_ids = as_texts c (first_array ("productIds" ∷ "product_ids" ∷ []) look) }

  unfoldable pub from_json_list_recommendations_response :
      Json → Option (ListRecommendationsResponse)
  from_json_list_recommendations_response j = read_json_list_recommendations_response (get j)
