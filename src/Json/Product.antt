-- ===== src/Json/Product.antt =====
-- `toJSON` and `fromJSON` of `Product`, `GetProductRequest`, `ListProductsResponse` in
-- src/frontend/protos/demo.ts.
pub mod RoundTrip
use opentelemetry_demo_mb3r.Prelude.{String, Option, some, List, [], ◌∷◌}
use opentelemetry_demo_mb3r.Proto.{GetProductRequest, ListProductsResponse, Product}
use opentelemetry_demo_mb3r.Json.{
  Json, object, Conversions, get, first_set, first_array, with_fields, ◌>>=◌, as_text, as_texts,
  as_message, as_messages, text_value, message_value, texts_value, messages_value, fields_of,
}
use opentelemetry_demo_mb3r.Json.Money.{from_json_money, to_json_money}

abbrev pub product_fields : Product → List (String × Option Json)
product_fields m =
    ("id", text_value m.id)
    ∷ ("name", text_value m.name)
    ∷ ("description", text_value m.description)
    ∷ ("picture", text_value m.picture)
    ∷ ("priceUsd", message_value to_json_money m.price_usd)
    ∷ ("categories", texts_value m.categories)
    ∷ []

unfoldable pub to_json_product : Product → Json
to_json_product m = object (fields_of (product_fields m))

abbrev pub get_product_request_fields : GetProductRequest → List (String × Option Json)
get_product_request_fields m = ("id", text_value m.id) ∷ []

unfoldable pub to_json_get_product_request : GetProductRequest → Json
to_json_get_product_request m = object (fields_of (get_product_request_fields m))

abbrev pub list_products_response_fields : ListProductsResponse → List (String × Option Json)
list_products_response_fields m = ("products", messages_value to_json_product m.products) ∷ []

unfoldable pub to_json_list_products_response : ListProductsResponse → Json
to_json_list_products_response m = object (fields_of (list_products_response_fields m))

module _ (c : Conversions) where
  abbrev pub read_json_product : (String → Option Json) → Option Product
  read_json_product look =
      as_message (from_json_money c) (first_set ("priceUsd" ∷ "price_usd" ∷ []) look)
      >>= λ price_usd. some record {
        id = as_text c (first_set ("id" ∷ []) look);
        name = as_text c (first_set ("name" ∷ []) look);
        description = as_text c (first_set ("description" ∷ []) look);
        picture = as_text c (first_set ("picture" ∷ []) look);
        price_usd = price_usd;
        categories = as_texts c (first_array ("categories" ∷ []) look);
      }

  unfoldable pub from_json_product : Json → Option (Product)
  from_json_product = with_fields read_json_product

  abbrev pub read_json_get_product_request : (String → Option Json) → Option GetProductRequest
  read_json_get_product_request look = some record { id = as_text c (first_set ("id" ∷ []) look) }

  unfoldable pub from_json_get_product_request : Json → Option (GetProductRequest)
  from_json_get_product_request = with_fields read_json_get_product_request

  abbrev pub read_json_list_products_response : (String → Option Json) → Option ListProductsResponse
  read_json_list_products_response look =
      as_messages from_json_product (first_array ("products" ∷ []) look) >>= λ products.
      some record { products = products }

  unfoldable pub from_json_list_products_response : Json → Option (ListProductsResponse)
  from_json_list_products_response j = read_json_list_products_response (get j)
