-- ===== src/Wire/Search.antt =====
-- `encode` and `decode` of `SearchProductsRequest`, `SearchProductsResponse`
-- in src/frontend/protos/demo.ts.
pub mod RoundTrip
use opentelemetry_demo_mb3r.Prelude.{ℕ, Option, [], ◌∷◌, ◌++◌, eqb, if◌then◌else◌}
use opentelemetry_demo_mb3r.Proto.{SearchProductsRequest, SearchProductsResponse}
use opentelemetry_demo_mb3r.Wire.{
  Bytes, Wire, Step, other, into, decode_all, decode_nested, put_string, put_messages,
}
use opentelemetry_demo_mb3r.Wire.Product.{base_product, encode_product, read_product}

abbrev pub base_search_products_request : SearchProductsRequest
base_search_products_request = record { query = "" }

abbrev pub base_search_products_response : SearchProductsResponse
base_search_products_response = record { results = [] }

module _ (w : Wire) where
  unfoldable pub encode_search_products_request : SearchProductsRequest → Bytes
  encode_search_products_request m = put_string w 10 m.query

  unfoldable pub read_search_products_request :
      ℕ → SearchProductsRequest → Bytes → Step (SearchProductsRequest)
  read_search_products_request tag m bs =
      if eqb tag 10 then into (λ v. record m { query = v }) (w.read_string bs) else other

  unfoldable pub decode_search_products_request : Bytes → Option (SearchProductsRequest)
  unfolding decode_all read_search_products_request
  decode_search_products_request bs =
      decode_all w read_search_products_request base_search_products_request bs

  unfoldable pub encode_search_products_response : SearchProductsResponse → Bytes
  unfolding encode_product
  encode_search_products_response m = put_messages w (encode_product w) 10 m.results

  unfoldable pub read_search_products_response :
      ℕ → SearchProductsResponse → Bytes → Step (SearchProductsResponse)
  unfolding decode_nested read_product
  read_search_products_response tag m bs =
      if eqb tag 10
      then into (λ v. record m { results = m.results ++ v ∷ [] })
          (decode_nested w (read_product w) base_product bs)
      else other

  unfoldable pub decode_search_products_response : Bytes → Option (SearchProductsResponse)
  unfolding decode_all read_search_products_response
  decode_search_products_response bs =
      decode_all w read_search_products_response base_search_products_response bs
