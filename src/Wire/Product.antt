-- ===== src/Wire/Product.antt =====
-- `encode` and `decode` of `Product`, `GetProductRequest`, `ListProductsResponse`
-- in src/frontend/protos/demo.ts.
pub mod RoundTrip
pub mod Fuel
pub mod Newer
use opentelemetry_demo_mb3r.Prelude.{ℕ, Option, none, some, [], ◌∷◌, ◌++◌, eqb, if◌then◌else◌}
use opentelemetry_demo_mb3r.Proto.{GetProductRequest, ListProductsResponse, Product}
use opentelemetry_demo_mb3r.Wire.{
  Bytes, Wire, Step, other, into, decode_all, decode_nested, put_string, put_message, put_strings,
  put_messages,
}
use opentelemetry_demo_mb3r.Wire.Money.{base_money, encode_money, read_money}

abbrev pub base_product : Product
base_product = record {
  id = "";
  name = "";
  description = "";
  picture = "";
  price_usd = none;
  categories = [];
}

abbrev pub base_get_product_request : GetProductRequest
base_get_product_request = record { id = "" }

abbrev pub base_list_products_response : ListProductsResponse
base_list_products_response = record { products = [] }

module _ (w : Wire) where
  unfoldable pub encode_product : Product → Bytes
  unfolding encode_money
  encode_product m =
      put_string w 10 m.id
      ++ put_string w 18 m.name
      ++ put_string w 26 m.description
      ++ put_string w 34 m.picture
      ++ put_message w (encode_money w) 42 m.price_usd
      ++ put_strings w 50 m.categories

  unfoldable pub read_product : ℕ → Product → Bytes → Step (Product)
  unfolding decode_nested read_money
  read_product tag m bs =
      if eqb tag 10
      then into (λ v. record m { id = v }) (w.read_string bs)
      else if eqb tag 18
      then into (λ v. record m { name = v }) (w.read_string bs)
      else if eqb tag 26
      then into (λ v. record m { description = v }) (w.read_string bs)
      else if eqb tag 34
      then into (λ v. record m { picture = v }) (w.read_string bs)
      else if eqb tag 42
      then into (λ v. record m { price_usd = some v })
          (decode_nested w (read_money w) base_money bs)
      else if eqb tag 50
      then into (λ v. record m { categories = m.categories ++ v ∷ [] }) (w.read_string bs)
      else other

  unfoldable pub decode_product : Bytes → Option (Product)
  unfolding decode_all read_product
  decode_product bs = decode_all w read_product base_product bs

  unfoldable pub encode_get_product_request : GetProductRequest → Bytes
  encode_get_product_request m = put_string w 10 m.id

  unfoldable pub read_get_product_request : ℕ → GetProductRequest → Bytes → Step (GetProductRequest)
  read_get_product_request tag m bs =
      if eqb tag 10 then into (λ v. record m { id = v }) (w.read_string bs) else other

  unfoldable pub decode_get_product_request : Bytes → Option (GetProductRequest)
  unfolding decode_all read_get_product_request
  decode_get_product_request bs = decode_all w read_get_product_request base_get_product_request bs

  unfoldable pub encode_list_products_response : ListProductsResponse → Bytes
  unfolding encode_product
  encode_list_products_response m = put_messages w encode_product 10 m.products

  unfoldable pub read_list_products_response :
      ℕ → ListProductsResponse → Bytes → Step (ListProductsResponse)
  unfolding decode_nested read_product
  read_list_products_response tag m bs =
      if eqb tag 10
      then into (λ v. record m { products = m.products ++ v ∷ [] })
          (decode_nested w read_product base_product bs)
      else other

  unfoldable pub decode_list_products_response : Bytes → Option (ListProductsResponse)
  unfolding decode_all read_list_products_response
  decode_list_products_response bs =
      decode_all w read_list_products_response base_list_products_response bs
