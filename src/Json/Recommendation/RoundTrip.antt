-- ===== src/Json/Recommendation/RoundTrip.antt =====
-- What `toJSON` writes of `ListRecommendationsRequest`, `ListRecommendationsResponse`, `fromJSON`
-- reads back.
use opentelemetry_demo_mb3r.Prelude.{◌≡◌, refl, ap, ◌∙◌, some}
use opentelemetry_demo_mb3r.Proto.{ListRecommendationsRequest, ListRecommendationsResponse}
use opentelemetry_demo_mb3r.Json.{Conversions}
use opentelemetry_demo_mb3r.Json.Fields.{get-fields_of, as_text-text_value, as_texts-texts_value}
use opentelemetry_demo_mb3r.Json.Recommendation.{
  from_json_list_recommendations_request, to_json_list_recommendations_request,
  read_json_list_recommendations_request, list_recommendations_request_fields,
  from_json_list_recommendations_response, to_json_list_recommendations_response,
  read_json_list_recommendations_response, list_recommendations_response_fields,
}

pub from_json_list_recommendations_request-to_json_list_recommendations_request :
    (c : Conversions) (m : ListRecommendationsRequest)
    → from_json_list_recommendations_request c (to_json_list_recommendations_request m) ≡ some m
unfolding from_json_list_recommendations_request to_json_list_recommendations_request
from_json_list_recommendations_request-to_json_list_recommendations_request c m =
    ap (read_json_list_recommendations_request c)
      (get-fields_of (list_recommendations_request_fields m))
    ∙ rw (as_text-text_value c m.user_id, as_texts-texts_value c m.product_ids) refl

pub from_json_list_recommendations_response-to_json_list_recommendations_response :
    (c : Conversions) (m : ListRecommendationsResponse)
    → from_json_list_recommendations_response c (to_json_list_recommendations_response m) ≡ some m
unfolding from_json_list_recommendations_response to_json_list_recommendations_response
from_json_list_recommendations_response-to_json_list_recommendations_response c m =
    ap (read_json_list_recommendations_response c)
      (get-fields_of (list_recommendations_response_fields m))
    ∙ rw (as_texts-texts_value c m.product_ids) refl
