-- ===== src/Json/Product/RoundTrip.antt =====
-- What `toJSON` writes of `Product`, `GetProductRequest`, `ListProductsResponse`, `fromJSON` reads
-- back.
use opentelemetry_demo_mb3r.Prelude.{◌≡◌, refl, ap, ◌∙◌, some}
use opentelemetry_demo_mb3r.Proto.{GetProductRequest, ListProductsResponse, Product}
use opentelemetry_demo_mb3r.Json.{Conversions}
use opentelemetry_demo_mb3r.Json.Fields.{
  get-fields_of, as_text-text_value, as_texts-texts_value, as_message-message_value,
  as_messages-messages_value,
}
use opentelemetry_demo_mb3r.Json.Product.{
  from_json_product, to_json_product, read_json_product, product_fields,
  from_json_get_product_request, to_json_get_product_request, read_json_get_product_request,
  get_product_request_fields, from_json_list_products_response, to_json_list_products_response,
  read_json_list_products_response, list_products_response_fields,
}
use opentelemetry_demo_mb3r.Json.Money.{from_json_money, to_json_money}
use opentelemetry_demo_mb3r.Json.Money.RoundTrip.{from_json_money-to_json_money}

pub from_json_product-to_json_product :
    (c : Conversions) (m : Product) → from_json_product c (to_json_product m) ≡ some m
unfolding from_json_product to_json_product to_json_money
from_json_product-to_json_product c m =
    ap (read_json_product c) (get-fields_of (product_fields m))
    ∙ rw
        (
          as_text-text_value c m.id,
          as_text-text_value c m.name,
          as_text-text_value c m.description,
          as_text-text_value c m.picture,
          as_message-message_value (from_json_money c) to_json_money
              (from_json_money-to_json_money c) (λ m. tt) m.price_usd,
          as_texts-texts_value c m.categories,
        )
        refl

pub from_json_get_product_request-to_json_get_product_request :
    (c : Conversions) (m : GetProductRequest)
    → from_json_get_product_request c (to_json_get_product_request m) ≡ some m
unfolding from_json_get_product_request to_json_get_product_request
from_json_get_product_request-to_json_get_product_request c m =
    ap (read_json_get_product_request c) (get-fields_of (get_product_request_fields m))
    ∙ rw (as_text-text_value c m.id) refl

pub from_json_list_products_response-to_json_list_products_response :
    (c : Conversions) (m : ListProductsResponse)
    → from_json_list_products_response c (to_json_list_products_response m) ≡ some m
unfolding from_json_list_products_response to_json_list_products_response to_json_product
from_json_list_products_response-to_json_list_products_response c m =
    ap (read_json_list_products_response c) (get-fields_of (list_products_response_fields m))
    ∙ rw
        (as_messages-messages_value (from_json_product c) to_json_product
          (from_json_product-to_json_product c) m.products)
        refl
