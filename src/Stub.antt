-- ===== src/Stub.antt =====
-- The service definitions and the clients of src/frontend/protos/demo.ts: a call goes to its service
-- as the bytes of the request, and the answer comes back as the bytes of the response. The failure
-- of a call whose bytes cannot be read, `undecodable`, is that of @grpc/grpc-js and a parameter. The
-- quotes of the shipping service go over HTTP and not through a client.
pub mod Methods
pub mod Exchange
pub mod Carried
use mathlib.Core.Option
use opentelemetry_demo_mb3r.Prelude.{Option, none, some, []}
use opentelemetry_demo_mb3r.Proto.{
  AdRequest, AdResponse, AddItemRequest, AskProductAiAssistantRequest,
  AskProductAiAssistantResponse, Cart, CurrencyConversionRequest, EmptyCartRequest,
  GetAverageProductReviewScoreRequest, GetAverageProductReviewScoreResponse, GetCartRequest,
  GetProductRequest, GetProductReviewsRequest, GetProductReviewsResponse,
  GetSupportedCurrenciesResponse, ListProductsResponse, ListRecommendationsRequest,
  ListRecommendationsResponse, Money, PlaceOrderRequest, PlaceOrderResponse, Product,
}
use opentelemetry_demo_mb3r.Calls
use opentelemetry_demo_mb3r.Calls.{Failure, Call, Callback, error, response, Services}
use opentelemetry_demo_mb3r.Wire.{Bytes, Wire}
use opentelemetry_demo_mb3r.Wire.Ad.{
  encode_ad_request, decode_ad_request, encode_ad_response, decode_ad_response,
}
use opentelemetry_demo_mb3r.Wire.Assistant.{
  encode_ask_product_ai_assistant_request, decode_ask_product_ai_assistant_request,
  encode_ask_product_ai_assistant_response, decode_ask_product_ai_assistant_response,
}
use opentelemetry_demo_mb3r.Wire.Cart.{
  encode_add_item_request, decode_add_item_request, encode_cart, decode_cart, encode_empty,
  decode_empty, encode_empty_cart_request, decode_empty_cart_request, encode_get_cart_request,
  decode_get_cart_request,
}
use opentelemetry_demo_mb3r.Wire.Checkout.{
  encode_place_order_request, decode_place_order_request, encode_place_order_response,
  decode_place_order_response,
}
use opentelemetry_demo_mb3r.Wire.Money.{
  encode_currency_conversion_request, decode_currency_conversion_request,
  encode_get_supported_currencies_response, decode_get_supported_currencies_response, encode_money,
  decode_money,
}
use opentelemetry_demo_mb3r.Wire.Product.{
  encode_get_product_request, decode_get_product_request, encode_list_products_response,
  decode_list_products_response, encode_product, decode_product,
}
use opentelemetry_demo_mb3r.Wire.Recommendation.{
  encode_list_recommendations_request, decode_list_recommendations_request,
  encode_list_recommendations_response, decode_list_recommendations_response,
}
use opentelemetry_demo_mb3r.Wire.Review.{
  encode_get_average_product_review_score_request, decode_get_average_product_review_score_request,
  encode_get_average_product_review_score_response,
  decode_get_average_product_review_score_response, encode_get_product_reviews_request,
  decode_get_product_reviews_request, encode_get_product_reviews_response,
  decode_get_product_reviews_response,
}
use opentelemetry_demo_mb3r.Stub.Methods.{
  Rpc, get_cart_rpc, add_item_rpc, empty_cart_rpc, list_products_rpc, get_product_rpc, convert_rpc,
  get_supported_currencies_rpc, place_order_rpc, get_ads_rpc, list_recommendations_rpc,
  get_product_reviews_rpc, get_average_product_review_score_rpc, ask_product_ai_assistant_rpc,
}

abbrev pub map_reply : {A B S : Type 0} → (A → B) → Callback A × S → Callback B × S
map_reply f (error e, s) = (error e, s)
map_reply f (response a, s) = (response (f a), s)

module _ {S : Type 0} (undecodable : Failure) where
  abbrev pub respond : {Req Res : Type 0} → Rpc Req Res → Callback Res × S → Callback Res × S
  respond rpc (error e, s) = (error e, s)
  respond rpc (response a, s) = elim (rpc.response_deserialize (rpc.response_serialize a)) [
    | none ↦ (error undecodable, s)
    | some b ↦ (response b, s)
  ]

  -- The bytes of the request to the service, which reads them and answers, and back.
  unfoldable pub exchange :
      {Req Res : Type 0} → Rpc Req Res → (Req → S → Callback Res × S) → Req → S → Callback Res × S
  exchange rpc serve req s = elim (rpc.request_deserialize (rpc.request_serialize req)) [
    | none ↦ (error undecodable, s)
    | some r ↦ respond rpc (serve r s)
  ]

-- The services as the clients see them. Where `Calls` has the one field of a response as the answer,
-- the message holds that field alone.
unfoldable pub over_wire : {S : Type 0} → Wire → Failure → Services S → Services S
unfolding exchange
over_wire w undecodable services (Call.get_cart u) s =
    exchange undecodable (get_cart_rpc w) (λ r. services (Call.get_cart r.user_id))
      (record { user_id = u }) s
over_wire w undecodable services (Call.add_item u i) s =
    exchange undecodable (add_item_rpc w) (λ r. services (Call.add_item r.user_id r.item))
      (record { user_id = u; item = i }) s
over_wire w undecodable services (Call.empty_cart u) s =
    exchange undecodable (empty_cart_rpc w) (λ r. services (Call.empty_cart r.user_id))
      (record { user_id = u }) s
over_wire w undecodable services Call.list_products s =
    map_reply (λ a. a.products)
      (exchange undecodable (list_products_rpc w)
        (λ r s. map_reply (λ v. record { products = v }) (services (Call.list_products) s)) (tt) s)
over_wire w undecodable services (Call.get_product id) s =
    exchange undecodable (get_product_rpc w) (λ r. services (Call.get_product r.id))
      (record { id = id }) s
over_wire w undecodable services (Call.convert m code) s =
    exchange undecodable (convert_rpc w) (λ r. services (Call.convert r.from r.to_code))
      (record { from = m; to_code = code }) s
over_wire w undecodable services Call.get_supported_currencies s =
    map_reply (λ a. some a.currency_codes)
      (exchange undecodable (get_supported_currencies_rpc w)
        (λ r s.
          map_reply (λ codes. record { currency_codes = Option.get_or codes [] })
            (services (Call.get_supported_currencies) s))
        (tt) s)
over_wire w undecodable services (Call.place_order order) s =
    exchange undecodable (place_order_rpc w) (λ r. services (Call.place_order r)) (order) s
over_wire w undecodable services (Call.get_ads keys) s =
    map_reply (λ a. a.ads)
      (exchange undecodable (get_ads_rpc w)
        (λ r s. map_reply (λ v. record { ads = v }) (services (Call.get_ads r.context_keys) s))
        (record { context_keys = keys }) s)
over_wire w undecodable services (Call.list_recommendations u ids) s =
    map_reply (λ a. a.product_ids)
      (exchange undecodable (list_recommendations_rpc w)
        (λ r s.
          map_reply (λ v. record { product_ids = v })
            (services (Call.list_recommendations r.user_id r.product_ids) s))
        (record { user_id = u; product_ids = ids }) s)
over_wire w undecodable services (Call.get_product_reviews id) s =
    map_reply (λ a. a.product_reviews)
      (exchange undecodable (get_product_reviews_rpc w)
        (λ r s.
          map_reply (λ v. record { product_reviews = v })
            (services (Call.get_product_reviews r.product_id) s))
        (record { product_id = id }) s)
over_wire w undecodable services (Call.get_average_product_review_score id) s =
    map_reply (λ a. a.average_score)
      (exchange undecodable (get_average_product_review_score_rpc w)
        (λ r s.
          map_reply (λ v. record { average_score = v })
            (services (Call.get_average_product_review_score r.product_id) s))
        (record { product_id = id }) s)
over_wire w undecodable services (Call.ask_product_ai_assistant id question) s =
    map_reply (λ a. a.response)
      (exchange undecodable (ask_product_ai_assistant_rpc w)
        (λ r s.
          map_reply (λ v. record { response = v })
            (services (Call.ask_product_ai_assistant r.product_id r.question) s))
        (record { product_id = id; question = question }) s)
over_wire w undecodable services (Call.get_quote request) s = services (Call.get_quote request) s
