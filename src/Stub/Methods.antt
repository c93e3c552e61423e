-- ===== src/Stub/Methods.antt =====
-- The methods of the service definitions in src/frontend/protos/demo.ts that the frontend calls.
use opentelemetry_demo_mb3r.Prelude.{Option}
use opentelemetry_demo_mb3r.Proto.{
  AdRequest, AdResponse, AddItemRequest, AskProductAiAssistantRequest,
  AskProductAiAssistantResponse, Cart, CurrencyConversionRequest, EmptyCartRequest,
  GetAverageProductReviewScoreRequest, GetAverageProductReviewScoreResponse, GetCartRequest,
  GetProductRequest, GetProductReviewsRequest, GetProductReviewsResponse,
  GetSupportedCurrenciesResponse, ListProductsResponse, ListRecommendationsRequest,
  ListRecommendationsResponse, Money, PlaceOrderRequest, PlaceOrderResponse, Product,
}
use opentelemetry_demo_mb3r.Wire.{Bytes, Wire}
use opentelemetry_demo_mb3r.Wire.Ad.{
  encode_ad_request, decode_ad_request, encode_ad_response, decode_ad_response,
}
use opentelemetry_demo_mb3r.Wire.Assistant.{
  encode_ask_product_ai_assistant_request, decode_ask_product_ai_assistant_request,
  encode_ask_product_ai_assistant_response, decode_ask_product_ai_assistant_response,
}
use opentelemetry_demo_mb3r.Wire.Cart.{
  encode_add_item_request, decode_add_item_request, encode_cart, decode_cart, encode_empty,
  decode_empty, encode_empty_cart_request, decode_empty_cart_request, encode_get_cart_request,
  decode_get_cart_request,
}
use opentelemetry_demo_mb3r.Wire.Checkout.{
  encode_place_order_request, decode_place_order_request, encode_place_order_response,
  decode_place_order_response,
}
use opentelemetry_demo_mb3r.Wire.Money.{
  encode_currency_conversion_request, decode_currency_conversion_request,
  encode_get_supported_currencies_response, decode_get_supported_currencies_response, encode_money,
  decode_money,
}
use opentelemetry_demo_mb3r.Wire.Product.{
  encode_get_product_request, decode_get_product_request, encode_list_products_response,
  decode_list_products_response, encode_product, decode_product,
}
use opentelemetry_demo_mb3r.Wire.Recommendation.{
  encode_list_recommendations_request, decode_list_recommendations_request,
  encode_list_recommendations_response, decode_list_recommendations_response,
}
use opentelemetry_demo_mb3r.Wire.Review.{
  encode_get_average_product_review_score_request, decode_get_average_product_review_score_request,
  encode_get_average_product_review_score_response,
  decode_get_average_product_review_score_response, encode_get_product_reviews_request,
  decode_get_product_reviews_request, encode_get_product_reviews_response,
  decode_get_product_reviews_response,
}

-- A method of a service definition.
pub record Rpc (Req Res : Type 0) : Type 0 where
  pub request_serialize : Req → Bytes
  pub request_deserialize : Bytes → Option Req
  pub response_serialize : Res → Bytes
  pub response_deserialize : Bytes → Option Res

module _ (w : Wire) where
  abbrev pub get_cart_rpc : Rpc (GetCartRequest) (Cart)
  get_cart_rpc = record {
    request_serialize = encode_get_cart_request w;
    request_deserialize = decode_get_cart_request w;
    response_serialize = encode_cart w;
    response_deserialize = decode_cart w;
  }

  abbrev pub add_item_rpc : Rpc (AddItemRequest) (Unit {0})
  add_item_rpc = record {
    request_serialize = encode_add_item_request w;
    request_deserialize = decode_add_item_request w;
    response_serialize = encode_empty w;
    response_deserialize = decode_empty w;
  }

  abbrev pub empty_cart_rpc : Rpc (EmptyCartRequest) (Unit {0})
  empty_cart_rpc = record {
    request_serialize = encode_empty_cart_request w;
    request_deserialize = decode_empty_cart_request w;
    response_serialize = encode_empty w;
    response_deserialize = decode_empty w;
  }

  abbrev pub list_products_rpc : Rpc (Unit {0}) (ListProductsResponse)
  list_products_rpc = record {
    request_serialize = encode_empty w;
    request_deserialize = decode_empty w;
    response_serialize = encode_list_products_response w;
    response_deserialize = decode_list_products_response w;
  }

  abbrev pub get_product_rpc : Rpc (GetProductRequest) (Product)
  get_product_rpc = record {
    request_serialize = encode_get_product_request w;
    request_deserialize = decode_get_product_request w;
    response_serialize = encode_product w;
    response_deserialize = decode_product w;
  }

  abbrev pub convert_rpc : Rpc (CurrencyConversionRequest) (Money)
  convert_rpc = record {
    request_serialize = encode_currency_conversion_request w;
    request_deserialize = decode_currency_conversion_request w;
    response_serialize = encode_money w;
    response_deserialize = decode_money w;
  }

  abbrev pub get_supported_currencies_rpc : Rpc (Unit {0}) (GetSupportedCurrenciesResponse)
  get_supported_currencies_rpc = record {
    request_serialize = encode_empty w;
    request_deserialize = decode_empty w;
    response_serialize = encode_get_supported_currencies_response w;
    response_deserialize = decode_get_supported_currencies_response w;
  }

  abbrev pub place_order_rpc : Rpc (PlaceOrderRequest) (PlaceOrderResponse)
  place_order_rpc = record {
    request_serialize = encode_place_order_request w;
    request_deserialize = decode_place_order_request w;
    response_serialize = encode_place_order_response w;
    response_deserialize = decode_place_order_response w;
  }

  abbrev pub get_ads_rpc : Rpc (AdRequest) (AdResponse)
  get_ads_rpc = record {
    request_serialize = encode_ad_request w;
    request_deserialize = decode_ad_request w;
    response_serialize = encode_ad_response w;
    response_deserialize = decode_ad_response w;
  }

  abbrev pub list_recommendations_rpc :
      Rpc (ListRecommendationsRequest) (ListRecommendationsResponse)
  list_recommendations_rpc = record {
    request_serialize = encode_list_recommendations_request w;
    request_deserialize = decode_list_recommendations_request w;
    response_serialize = encode_list_recommendations_response w;
    response_deserialize = decode_list_recommendations_response w;
  }

  abbrev pub get_product_reviews_rpc : Rpc (GetProductReviewsRequest) (GetProductReviewsResponse)
  get_product_reviews_rpc = record {
    request_serialize = encode_get_product_reviews_request w;
    request_deserialize = decode_get_product_reviews_request w;
    response_serialize = encode_get_product_reviews_response w;
    response_deserialize = decode_get_product_reviews_response w;
  }

  abbrev pub get_average_product_review_score_rpc :
      Rpc (GetAverageProductReviewScoreRequest) (GetAverageProductReviewScoreResponse)
  get_average_product_review_score_rpc = record {
    request_serialize = encode_get_average_product_review_score_request w;
    request_deserialize = decode_get_average_product_review_score_request w;
    response_serialize = encode_get_average_product_review_score_response w;
    response_deserialize = decode_get_average_product_review_score_response w;
  }

  abbrev pub ask_product_ai_assistant_rpc :
      Rpc (AskProductAiAssistantRequest) (AskProductAiAssistantResponse)
  ask_product_ai_assistant_rpc = record {
    request_serialize = encode_ask_product_ai_assistant_request w;
    request_deserialize = decode_ask_product_ai_assistant_request w;
    response_serialize = encode_ask_product_ai_assistant_response w;
    response_deserialize = decode_ask_product_ai_assistant_response w;
  }
