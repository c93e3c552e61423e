-- ===== src/Stub/Carried.antt =====
-- The calls of the clients beside those of the services.
use mathlib.Core.Option
use opentelemetry_demo_mb3r.Prelude.{List, String, ◌≡◌, refl, ap, ◌∙◌, Option, none, some, []}
use opentelemetry_demo_mb3r.Calls.{Failure, Call, Reply, Services}
use opentelemetry_demo_mb3r.Promise.{Promise, resolved, rejected, waiting, run}
use opentelemetry_demo_mb3r.Wire.{Wire}
use opentelemetry_demo_mb3r.Stub.{over_wire}
use opentelemetry_demo_mb3r.Stub.Methods.{
  get_cart_rpc, add_item_rpc, empty_cart_rpc, list_products_rpc, get_product_rpc, convert_rpc,
  get_supported_currencies_rpc, place_order_rpc, get_ads_rpc, list_recommendations_rpc,
  get_product_reviews_rpc, get_average_product_review_score_rpc, ask_product_ai_assistant_rpc,
}
use opentelemetry_demo_mb3r.Wire.Ad.RoundTrip.{
  decode_ad_request-encode_ad_request, decode_ad_response-encode_ad_response, FitsAdResponse,
}
use opentelemetry_demo_mb3r.Wire.Assistant.RoundTrip.{
  decode_ask_product_ai_assistant_request-encode_ask_product_ai_assistant_request,
  decode_ask_product_ai_assistant_response-encode_ask_product_ai_assistant_response,
}
use opentelemetry_demo_mb3r.Wire.Cart.RoundTrip.{
  decode_add_item_request-encode_add_item_request, decode_cart-encode_cart,
  decode_empty-encode_empty, decode_empty_cart_request-encode_empty_cart_request,
  decode_get_cart_request-encode_get_cart_request, FitsAddItemRequest, FitsCart,
}
use opentelemetry_demo_mb3r.Wire.Checkout.RoundTrip.{
  decode_place_order_request-encode_place_order_request,
  decode_place_order_response-encode_place_order_response, FitsPlaceOrderRequest,
  FitsPlaceOrderResponse,
}
use opentelemetry_demo_mb3r.Wire.Money.RoundTrip.{
  decode_currency_conversion_request-encode_currency_conversion_request,
  decode_get_supported_currencies_response-encode_get_supported_currencies_response,
  decode_money-encode_money, FitsCurrencyConversionRequest, FitsMoney,
}
use opentelemetry_demo_mb3r.Wire.Product.RoundTrip.{
  decode_get_product_request-encode_get_product_request,
  decode_list_products_response-encode_list_products_response, decode_product-encode_product,
  FitsListProductsResponse, FitsProduct,
}
use opentelemetry_demo_mb3r.Wire.Recommendation.RoundTrip.{
  decode_list_recommendations_request-encode_list_recommendations_request,
  decode_list_recommendations_response-encode_list_recommendations_response,
}
use opentelemetry_demo_mb3r.Wire.Review.RoundTrip.{
  decode_get_average_product_review_score_request-encode_get_average_product_review_score_request,
  decode_get_average_product_review_score_response-encode_get_average_product_review_score_response,
  decode_get_product_reviews_request-encode_get_product_reviews_request,
  decode_get_product_reviews_response-encode_get_product_reviews_response,
  FitsGetProductReviewsResponse,
}
use opentelemetry_demo_mb3r.Stub.Exchange.{
  OnResponse, OnResponse-all, OnResponse-mono, exchange_back, exchange_field,
}

module _ (w : Wire) where
  -- The numbers of the request and of the answer are in range, and what holds their messages is
  -- not too long.
  abbrev pub FitsCall : Call → Type 0
  FitsCall (Call.add_item u i) = FitsAddItemRequest w (record { user_id = u; item = i })
  FitsCall (Call.convert m code) =
      FitsCurrencyConversionRequest w (record { from = m; to_code = code })
  FitsCall (Call.place_order order) = FitsPlaceOrderRequest w (order)
  FitsCall _ = Unit

  abbrev pub FitsReply : (c : Call) → Reply c → Type 0
  FitsReply (Call.get_cart _) a = FitsCart w a
  FitsReply (Call.add_item _ _) a = Unit
  FitsReply (Call.empty_cart _) a = Unit
  FitsReply Call.list_products a = FitsListProductsResponse w (record { products = a })
  FitsReply (Call.get_product _) a = FitsProduct w a
  FitsReply (Call.convert _ _) a = FitsMoney w a
  FitsReply Call.get_supported_currencies none = ⊥
  FitsReply Call.get_supported_currencies (some codes) = Unit
  FitsReply (Call.place_order _) a = FitsPlaceOrderResponse w a
  FitsReply (Call.get_ads _) a = FitsAdResponse w (record { ads = a })
  FitsReply (Call.list_recommendations _ _) a = Unit
  FitsReply (Call.get_product_reviews _) a =
      FitsGetProductReviewsResponse w (record { product_reviews = a })
  FitsReply (Call.get_average_product_review_score _) a = Unit
  FitsReply (Call.ask_product_ai_assistant _ _) a = Unit
  FitsReply (Call.get_quote _) a = Unit

some_codes :
    (w : Wire) (a : Option (List String))
    → FitsReply w Call.get_supported_currencies a
    → some (Option.get_or a []) ≡ a
some_codes w none p = absurd p
some_codes w (some codes) p = refl

-- If the numbers of a call and of its answer are in range, then the client's call gives what the
-- service gives: its answer or its error, and the state that it left.
pub over_wire_lem :
    {S : Type 0} (w : Wire) (undecodable : Failure) (services : Services S) (c : Call) (s : S)
    → FitsCall w c
    → OnResponse (FitsReply w c) (services c s).0
    → over_wire w undecodable services c s ≡ services c s
unfolding over_wire
over_wire_lem w undecodable services (Call.get_cart u) s h k =
    exchange_back undecodable (get_cart_rpc w) (λ r. services (Call.get_cart r.user_id))
      (record { user_id = u }) s
      (decode_get_cart_request-encode_get_cart_request w (record { user_id = u }))
      (OnResponse-mono _ _ (λ a p. decode_cart-encode_cart w a p) (services (Call.get_cart u) s).0
        k)
over_wire_lem w undecodable services (Call.add_item u i) s h k =
    exchange_back undecodable (add_item_rpc w) (λ r. services (Call.add_item r.user_id r.item))
      (record { user_id = u; item = i }) s
      (decode_add_item_request-encode_add_item_request w (record { user_id = u; item = i }) h)
      (OnResponse-all _ (λ a. decode_empty-encode_empty w a) (services (Call.add_item u i) s).0)
over_wire_lem w undecodable services (Call.empty_cart u) s h k =
    exchange_back undecodable (empty_cart_rpc w) (λ r. services (Call.empty_cart r.user_id))
      (record { user_id = u }) s
      (decode_empty_cart_request-encode_empty_cart_request w (record { user_id = u }))
      (OnResponse-all _ (λ a. decode_empty-encode_empty w a) (services (Call.empty_cart u) s).0)
over_wire_lem w undecodable services Call.list_products s h k =
    exchange_field undecodable (list_products_rpc w) (λ r s. services (Call.list_products) s)
      (λ v. record { products = v }) (λ a. a.products) (tt) s (decode_empty-encode_empty w (tt))
      (OnResponse-mono (FitsReply w Call.list_products) _
        (λ a p. (
          decode_list_products_response-encode_list_products_response w (record { products = a }) p,
          refl,
        ))
        (services Call.list_products s).0 k)
over_wire_lem w undecodable services (Call.get_product id) s h k =
    exchange_back undecodable (get_product_rpc w) (λ r. services (Call.get_product r.id))
      (record { id = id }) s
      (decode_get_product_request-encode_get_product_request w (record { id = id }))
      (OnResponse-mono _ _ (λ a p. decode_product-encode_product w a p)
        (services (Call.get_product id) s).0 k)
over_wire_lem w undecodable services (Call.convert m code) s h k =
    exchange_back undecodable (convert_rpc w) (λ r. services (Call.convert r.from r.to_code))
      (record { from = m; to_code = code }) s
      (decode_currency_conversion_request-encode_currency_conversion_request w
        (record { from = m; to_code = code }) h)
      (OnResponse-mono _ _ (λ a p. decode_money-encode_money w a p)
        (services (Call.convert m code) s).0 k)
over_wire_lem w undecodable services Call.get_supported_currencies s h k =
    exchange_field undecodable (get_supported_currencies_rpc w)
      (λ r s. services (Call.get_supported_currencies) s)
      (λ codes. record { currency_codes = Option.get_or codes [] }) (λ a. some a.currency_codes)
      (tt) s (decode_empty-encode_empty w (tt))
      (OnResponse-mono (FitsReply w Call.get_supported_currencies) _
        (λ a p. (
          decode_get_supported_currencies_response-encode_get_supported_currencies_response w
              (record { currency_codes = Option.get_or a [] }),
          some_codes w a p,
        ))
        (services Call.get_supported_currencies s).0 k)
over_wire_lem w undecodable services (Call.place_order order) s h k =
    exchange_back undecodable (place_order_rpc w) (λ r. services (Call.place_order r)) (order) s
      (decode_place_order_request-encode_place_order_request w (order) h)
      (OnResponse-mono _ _ (λ a p. decode_place_order_response-encode_place_order_response w a p)
        (services (Call.place_order order) s).0 k)
over_wire_lem w undecodable services (Call.get_ads keys) s h k =
    exchange_field undecodable (get_ads_rpc w) (λ r s. services (Call.get_ads r.context_keys) s)
      (λ v. record { ads = v }) (λ a. a.ads) (record { context_keys = keys }) s
      (decode_ad_request-encode_ad_request w (record { context_keys = keys }))
      (OnResponse-mono (FitsReply w (Call.get_ads keys)) _
        (λ a p. (decode_ad_response-encode_ad_response w (record { ads = a }) p, refl))
        (services (Call.get_ads keys) s).0 k)
over_wire_lem w undecodable services (Call.list_recommendations u ids) s h k =
    exchange_field undecodable (list_recommendations_rpc w)
      (λ r s. services (Call.list_recommendations r.user_id r.product_ids) s)
      (λ v. record { product_ids = v }) (λ a. a.product_ids)
      (record { user_id = u; product_ids = ids }) s
      (decode_list_recommendations_request-encode_list_recommendations_request w
        (record { user_id = u; product_ids = ids }))
      (OnResponse-all _
        (λ a. (
          decode_list_recommendations_response-encode_list_recommendations_response w
              (record { product_ids = a }),
          refl,
        ))
        (services (Call.list_recommendations u ids) s).0)
over_wire_lem w undecodable services (Call.get_product_reviews id) s h k =
    exchange_field undecodable (get_product_reviews_rpc w)
      (λ r s. services (Call.get_product_reviews r.product_id) s)
      (λ v. record { product_reviews = v }) (λ a. a.product_reviews) (record { product_id = id }) s
      (decode_get_product_reviews_request-encode_get_product_reviews_request w
        (record { product_id = id }))
      (OnResponse-mono (FitsReply w (Call.get_product_reviews id)) _
        (λ a p. (
          decode_get_product_reviews_response-encode_get_product_reviews_response w
              (record { product_reviews = a }) p,
          refl,
        ))
        (services (Call.get_product_reviews id) s).0 k)
over_wire_lem w undecodable services (Call.get_average_product_review_score id) s h k =
    exchange_field undecodable (get_average_product_review_score_rpc w)
      (λ r s. services (Call.get_average_product_review_score r.product_id) s)
      (λ v. record { average_score = v }) (λ a. a.average_score) (record { product_id = id }) s
      (decode_get_average_product_review_score_request-encode_get_average_product_review_score_request
        w (record { product_id = id }))
      (OnResponse-all _
        (λ a. (
          decode_get_average_product_review_score_response-encode_get_average_product_review_score_response
              w (record { average_score = a }),
          refl,
        ))
        (services (Call.get_average_product_review_score id) s).0)
over_wire_lem w undecodable services (Call.ask_product_ai_assistant id question) s h k =
    exchange_field undecodable (ask_product_ai_assistant_rpc w)
      (λ r s. services (Call.ask_product_ai_assistant r.product_id r.question) s)
      (λ v. record { response = v }) (λ a. a.response)
      (record { product_id = id; question = question }) s
      (decode_ask_product_ai_assistant_request-encode_ask_product_ai_assistant_request w
        (record { product_id = id; question = question }))
      (OnResponse-all _
        (λ a. (
          decode_ask_product_ai_assistant_response-encode_ask_product_ai_assistant_response w
              (record { response = a }),
          refl,
        ))
        (services (Call.ask_product_ai_assistant id question) s).0)
over_wire_lem w undecodable services (Call.get_quote request) s h k = refl

-- Every call that a promise makes, and its answer, have their numbers in range.
abbrev pub FitsRun : {S : Type 0} {A : Type 0} → Wire → Services S → Promise A → S → Type 0
FitsRun w services (resolved a) s = Unit
FitsRun w services (rejected e) s = Unit
FitsRun w services (waiting c k) s =
    FitsCall w c
    × OnResponse (FitsReply w c) (services c s).0
    × FitsRun w services (k (services c s).0) (services c s).1

-- If the numbers of every call of a handler and of its answer are in range, then the handler over
-- the clients, which send the bytes of their requests and read the bytes of the answers, settles as
-- it does over the services, and leaves them in the same state.
pub run-over_wire :
    {S A : Type 0} (w : Wire) (undecodable : Failure) (services : Services S) (p : Promise A)
    (s : S)
    → FitsRun w services p s
    → run (over_wire w undecodable services) p s ≡ run services p s
unfolding run
run-over_wire w undecodable services (resolved a) s h = refl
run-over_wire w undecodable services (rejected e) s h = refl
run-over_wire w undecodable services (waiting c k) s (fits, reply, rest) =
    ap (λ x. run (over_wire w undecodable services) (k x.0) x.1)
      (over_wire_lem w undecodable services c s fits reply)
    ∙ run-over_wire w undecodable services (k (services c s).0) (services c s).1 rest
