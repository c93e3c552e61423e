-- ===== src/Json/Search/RoundTrip.antt =====
-- What `toJSON` writes of `SearchProductsRequest`, `SearchProductsResponse`, `fromJSON` reads
-- back.
use opentelemetry_demo_mb3r.Prelude.{◌≡◌, refl, ap, ◌∙◌, some}
use opentelemetry_demo_mb3r.Proto.{SearchProductsRequest, SearchProductsResponse}
use opentelemetry_demo_mb3r.Json.{Conversions}
use opentelemetry_demo_mb3r.Json.Fields.{
  get-fields_of, as_text-text_value, as_messages-messages_value,
}
use opentelemetry_demo_mb3r.Json.Search.{
  from_json_search_products_request, to_json_search_products_request,
  read_json_search_products_request, search_products_request_fields,
  from_json_search_products_response, to_json_search_products_response,
  read_json_search_products_response, search_products_response_fields,
}
use opentelemetry_demo_mb3r.Json.Product.{from_json_product, to_json_product}
use opentelemetry_demo_mb3r.Json.Product.RoundTrip.{from_json_product-to_json_product}

pub from_json_search_products_request-to_json_search_products_request :
    (c : Conversions) (m : SearchProductsRequest)
    → from_json_search_products_request c (to_json_search_products_request m) ≡ some m
unfolding from_json_search_products_request to_json_search_products_request
from_json_search_products_request-to_json_search_products_request c m =
    ap (read_json_search_products_request c) (get-fields_of (search_products_request_fields m))
    ∙ rw (as_text-text_value c m.query) refl

pub from_json_search_products_response-to_json_search_products_response :
    (c : Conversions) (m : SearchProductsResponse)
    → from_json_search_products_response c (to_json_search_products_response m) ≡ some m
unfolding from_json_search_products_response to_json_search_products_response to_json_product
from_json_search_products_response-to_json_search_products_response c m =
    ap (read_json_search_products_response c) (get-fields_of (search_products_response_fields m))
    ∙ rw
        (as_messages-messages_value (from_json_product c) to_json_product
          (from_json_product-to_json_product c) m.results)
        refl
