-- ===== src/Wire/Search/RoundTrip.antt =====
-- What `decode` makes of the bytes of `encode`, for the messages of the parent module.
use opentelemetry_demo_mb3r.Prelude.{◌^◌, ◌<◌, ◌≡◌, refl, some, [], All, length, arith}
use opentelemetry_demo_mb3r.Proto.{SearchProductsRequest, SearchProductsResponse}
use opentelemetry_demo_mb3r.Wire.{Wire}
use opentelemetry_demo_mb3r.Wire.Reading.{Takes, Takes-string, decode_all-Takes}
use opentelemetry_demo_mb3r.Wire.Nesting.{Takes-messages}
use opentelemetry_demo_mb3r.Wire.Search.{
  base_search_products_request, encode_search_products_request, read_search_products_request,
  decode_search_products_request, base_search_products_response, encode_search_products_response,
  read_search_products_response, decode_search_products_response,
}
use opentelemetry_demo_mb3r.Wire.Product.{base_product, encode_product, read_product}
use opentelemetry_demo_mb3r.Wire.Product.RoundTrip.{Takes-product, FitsProduct}

module _ (w : Wire) where
  pub Takes-search_products_request :
      (m : SearchProductsRequest)
      → Takes w
          (read_search_products_request w)
          (encode_search_products_request w m)
          base_search_products_request
          m
  unfolding encode_search_products_request read_search_products_request
  Takes-search_products_request m =
      Takes-string w (read_search_products_request w) 10 (λ v. record { query = v }) m.query
        (omega arith) (λ bs. refl)

  pub decode_search_products_request-encode_search_products_request :
      (m : SearchProductsRequest)
      → decode_search_products_request w (encode_search_products_request w m) ≡ some m
  unfolding decode_search_products_request
  decode_search_products_request-encode_search_products_request m =
      decode_all-Takes w (read_search_products_request w) (Takes-search_products_request m)

  abbrev pub FitsSearchProductsResponse : SearchProductsResponse → Type 0
  FitsSearchProductsResponse m =
      All (λ x. FitsProduct w x × (length (encode_product w x) < 2 ^ 32)) m.results

  pub Takes-search_products_response :
      (m : SearchProductsResponse)
      → FitsSearchProductsResponse m
      → Takes w
          (read_search_products_response w)
          (encode_search_products_response w m)
          base_search_products_response
          m
  unfolding encode_search_products_response read_search_products_response
  Takes-search_products_response m h =
      Takes-messages w (read_search_products_response w) (read_product w) (encode_product w)
        base_product 10 (λ v. record { results = v }) [] m.results (omega arith)
        (λ x p. (Takes-product w x p.0, p.1)) h (λ before bs. refl)

  pub decode_search_products_response-encode_search_products_response :
      (m : SearchProductsResponse)
      → FitsSearchProductsResponse m
      → decode_search_products_response w (encode_search_products_response w m) ≡ some m
  unfolding decode_search_products_response
  decode_search_products_response-encode_search_products_response m h =
      decode_all-Takes w (read_search_products_response w) (Takes-search_products_response m h)
