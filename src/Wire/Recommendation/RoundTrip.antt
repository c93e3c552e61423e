-- ===== src/Wire/Recommendation/RoundTrip.antt =====
-- What `decode` makes of the bytes of `encode`, for the messages of the parent module.
use opentelemetry_demo_mb3r.Prelude.{◌≡◌, refl, some, [], arith}
use opentelemetry_demo_mb3r.Proto.{ListRecommendationsRequest, ListRecommendationsResponse}
use opentelemetry_demo_mb3r.Wire.{Wire}
use opentelemetry_demo_mb3r.Wire.Reading.{
  Takes, Takes-then, Takes-string, Takes-strings, decode_all-Takes,
}
use opentelemetry_demo_mb3r.Wire.Recommendation.{
  base_list_recommendations_request, encode_list_recommendations_request,
  read_list_recommendations_request, decode_list_recommendations_request,
  base_list_recommendations_response, encode_list_recommendations_response,
  read_list_recommendations_response, decode_list_recommendations_response,
}

module _ (w : Wire) where
  pub Takes-list_recommendations_request :
      (m : ListRecommendationsRequest)
      → Takes w
          (read_list_recommendations_request w)
          (encode_list_recommendations_request w m)
          base_list_recommendations_request
          m
  unfolding encode_list_recommendations_request read_list_recommendations_request
  Takes-list_recommendations_request m =
      Takes-then w (read_list_recommendations_request w)
        (Takes-string w (read_list_recommendations_request w) 10
          (λ v. record { user_id = v; product_ids = [] }) m.user_id (omega arith) (λ bs. refl))
        (Takes-strings w (read_list_recommendations_request w) 18
          (λ v. record { user_id = m.user_id; product_ids = v }) [] m.product_ids (omega arith)
          (λ before bs. refl))

  pub decode_list_recommendations_request-encode_list_recommendations_request :
      (m : ListRecommendationsRequest)
      → decode_list_recommendations_request w (encode_list_recommendations_request w m) ≡ some m
  unfolding decode_list_recommendations_request
  decode_list_recommendations_request-encode_list_recommendations_request m =
      decode_all-Takes w (read_list_recommendations_request w)
        (Takes-list_recommendations_request m)

  pub Takes-list_recommendations_response :
      (m : ListRecommendationsResponse)
      → Takes w
          (read_list_recommendations_response w)
          (encode_list_recommendations_response w m)
          base_list_recommendations_response
          m
  unfolding encode_list_recommendations_response read_list_recommendations_response
  Takes-list_recommendations_response m =
      Takes-strings w (read_list_recommendations_response w) 10 (λ v. record { product_ids = v }) []
        m.product_ids (omega arith) (λ before bs. refl)

  pub decode_list_recommendations_response-encode_list_recommendations_response :
      (m : ListRecommendationsResponse)
      → decode_list_recommendations_response w (encode_list_recommendations_response w m) ≡ some m
  unfolding decode_list_recommendations_response
  decode_list_recommendations_response-encode_list_recommendations_response m =
      decode_all-Takes w (read_list_recommendations_response w)
        (Takes-list_recommendations_response m)
