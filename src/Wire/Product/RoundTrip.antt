-- ===== src/Wire/Product/RoundTrip.antt =====
-- What `decode` makes of the bytes of `encode`, for the messages of the parent module.
use opentelemetry_demo_mb3r.Prelude.{◌^◌, ◌<◌, ◌≡◌, refl, none, some, [], All, length, arith}
use opentelemetry_demo_mb3r.Proto.{GetProductRequest, ListProductsResponse, Product}
use opentelemetry_demo_mb3r.Wire.{Wire}
use opentelemetry_demo_mb3r.Wire.Reading.{
  Takes, Takes-then, Takes-string, Takes-strings, decode_all-Takes,
}
use opentelemetry_demo_mb3r.Wire.Nesting.{OnSome, Takes-message, Takes-messages}
use opentelemetry_demo_mb3r.Wire.Product.{
  base_product, encode_product, read_product, decode_product, base_get_product_request,
  encode_get_product_request, read_get_product_request, decode_get_product_request,
  base_list_products_response, encode_list_products_response, read_list_products_response,
  decode_list_products_response,
}
use opentelemetry_demo_mb3r.Wire.Money.{base_money, encode_money, read_money}
use opentelemetry_demo_mb3r.Wire.Money.RoundTrip.{Takes-money, FitsMoney}

module _ (w : Wire) where
  abbrev pub FitsProduct : Product → Type 0
  FitsProduct m = OnSome (λ x. FitsMoney w x × (length (encode_money w x) < 2 ^ 32)) m.price_usd

  pub Takes-product :
      (m : Product) → FitsProduct m → Takes w (read_product w) (encode_product w m) base_product m
  unfolding encode_product read_product
  Takes-product m h =
      Takes-then w (read_product w)
        (Takes-then w (read_product w)
          (Takes-then w (read_product w)
            (Takes-then w (read_product w)
              (Takes-then w (read_product w)
                (Takes-string w (read_product w) 10
                  (λ v. record {
                    id = v;
                    name = "";
                    description = "";
                    picture = "";
                    price_usd = none;
                    categories = [];
                  })
                  m.id (omega arith) (λ bs. refl))
                (Takes-string w (read_product w) 18
                  (λ v. record {
                    id = m.id;
                    name = v;
                    description = "";
                    picture = "";
                    price_usd = none;
                    categories = [];
                  })
                  m.name (omega arith) (λ bs. refl)))
              (Takes-string w (read_product w) 26
                (λ v. record {
                  id = m.id;
                  name = m.name;
                  description = v;
                  picture = "";
                  price_usd = none;
                  categories = [];
                })
                m.description (omega arith) (λ bs. refl)))
            (Takes-string w (read_product w) 34
              (λ v. record {
                id = m.id;
                name = m.name;
                description = m.description;
                picture = v;
                price_usd = none;
                categories = [];
              })
              m.picture (omega arith) (λ bs. refl)))
          (Takes-message w (read_product w) (read_money w) (encode_money w) base_money 42
            (λ v. record {
              id = m.id;
              name = m.name;
              description = m.description;
              picture = m.picture;
              price_usd = v;
              categories = [];
            })
            m.price_usd (omega arith) (λ x p. (Takes-money w x p.0, p.1)) h (λ bs. refl)))
        (Takes-strings w (read_product w) 50
          (λ v. record {
            id = m.id;
            name = m.name;
            description = m.description;
            picture = m.picture;
            price_usd = m.price_usd;
            categories = v;
          })
          [] m.categories (omega arith) (λ before bs. refl))

  pub decode_product-encode_product :
      (m : Product) → FitsProduct m → decode_product w (encode_product w m) ≡ some m
  unfolding decode_product
  decode_product-encode_product m h = decode_all-Takes w (read_product w) (Takes-product m h)

  pub Takes-get_product_request :
      (m : GetProductRequest)
      → Takes w
          (read_get_product_request w)
          (encode_get_product_request w m)
          base_get_product_request
          m
  unfolding encode_get_product_request read_get_product_request
  Takes-get_product_request m =
      Takes-string w (read_get_product_request w) 10 (λ v. record { id = v }) m.id (omega arith)
        (λ bs. refl)

  pub decode_get_product_request-encode_get_product_request :
      (m : GetProductRequest)
      → decode_get_product_request w (encode_get_product_request w m) ≡ some m
  unfolding decode_get_product_request
  decode_get_product_request-encode_get_product_request m =
      decode_all-Takes w (read_get_product_request w) (Takes-get_product_request m)

  abbrev pub FitsListProductsResponse : ListProductsResponse → Type 0
  FitsListProductsResponse m =
      All (λ x. FitsProduct x × (length (encode_product w x) < 2 ^ 32)) m.products

  pub Takes-list_products_response :
      (m : ListProductsResponse)
      → FitsListProductsResponse m
      → Takes w
          (read_list_products_response w)
          (encode_list_products_response w m)
          base_list_products_response
          m
  unfolding encode_list_products_response read_list_products_response
  Takes-list_products_response m h =
      Takes-messages w (read_list_products_response w) (read_product w) (encode_product w)
        base_product 10 (λ v. record { products = v }) [] m.products (omega arith)
        (λ x p. (Takes-product x p.0, p.1)) h (λ before bs. refl)

  -- If the prices of a list of products are in range and no product is too long, then decoding the
  -- bytes of the list gives the products, in their order.
  pub decode_list_products_response-encode_list_products_response :
      (m : ListProductsResponse)
      → FitsListProductsResponse m
      → decode_list_products_response w (encode_list_products_response w m) ≡ some m
  unfolding decode_list_products_response
  decode_list_products_response-encode_list_products_response m h =
      decode_all-Takes w (read_list_products_response w) (Takes-list_products_response m h)
