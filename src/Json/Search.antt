-- ===== src/Json/Search.antt =====
-- `toJSON` and `fromJSON` of `SearchProductsRequest`, `SearchProductsResponse` in
-- src/frontend/protos/demo.ts.
pub mod RoundTrip
use opentelemetry_demo_mb3r.Prelude.{String, Option, some, List, [], ◌∷◌}
use opentelemetry_demo_mb3r.Proto.{SearchProductsRequest, SearchProductsResponse}
use opentelemetry_demo_mb3r.Json.{
  Json, object, Conversions, get, first_set, first_array, with_fields, ◌>>=◌, as_text, as_messages,
  text_value, messages_value, fields_of,
}
use opentelemetry_demo_mb3r.Json.Product.{from_json_product, to_json_product}

abbrev pub search_products_request_fields : SearchProductsRequest → List (String × Option Json)
search_products_request_fields m = ("query", text_value m.query) ∷ []

unfoldable pub to_json_search_products_request : SearchProductsRequest → Json
to_json_search_products_request m = object (fields_of (search_products_request_fields m))

abbrev pub search_products_response_fields : SearchProductsResponse → List (String × Option Json)
search_products_response_fields m = ("results", messages_value to_json_product m.results) ∷ []

unfoldable pub to_json_search_products_response : SearchProductsResponse → Json
to_json_search_products_response m = object (fields_of (search_products_response_fields m))

module _ (c : Conversions) where
  abbrev pub read_json_search_products_request :
      (String → Option Json) → Option SearchProductsRequest
  read_json_search_products_request look =
      some record { query = as_text c (first_set ("query" ∷ []) look) }

  unfoldable pub from_json_search_products_request : Json → Option (SearchProductsRequest)
  from_json_search_products_request = with_fields read_json_search_products_request

  abbrev pub read_json_search_products_response :
      (String → Option Json) → Option SearchProductsResponse
  read_json_search_products_response look =
      as_messages (from_json_product c) (first_array ("results" ∷ []) look) >>= λ results.
      some record { results = results }

  unfoldable pub from_json_search_products_response : Json → Option (SearchProductsResponse)
  from_json_search_products_response j = read_json_search_products_response (get j)
