-- ===== src/Mobile.antt =====
-- The mobile app's copy of the client gateway: src/react-native-app/gateways/Api.gateway.ts, with
-- src/react-native-app/utils/Request.ts. The requests reach the handlers of the frontend as those of
-- the web client do, through the address of its proxy.
pub mod Requests
pub mod Session
use opentelemetry_demo_mb3r.Prelude.{String, Option, none, some, List, map}
use opentelemetry_demo_mb3r.Proto.{CartItem, AddItemRequest, Address, PlaceOrderRequest}
use opentelemetry_demo_mb3r.Http.{get, post, delete, text, json, ProductCartItem}
use opentelemetry_demo_mb3r.Api.Routes
use opentelemetry_demo_mb3r.Api.Routes.{Route}
use opentelemetry_demo_mb3r.Client.{join_commas, no_query, in_currency, sent, plain_item}

-- The methods of the app's gateway, with their arguments.
pub data MobileCall : Type 0 where
  get_cart : String → MobileCall
  add_cart_item : String → CartItem → MobileCall
  empty_cart get_supported_currency_list : MobileCall
  get_shipping_cost : List ProductCartItem → String → Address → MobileCall
  place_order : String → PlaceOrderRequest → MobileCall
  list_products : String → MobileCall
  get_product : String → String → MobileCall
  list_recommendations : List String → String → MobileCall
  list_ads : List String → MobileCall

-- The request of a call, for the `userId` of the session that each call reads; the one about a
-- product is that for an identifier that is a segment of the path, as in the web client.
unfoldable pub mobile_request_of : String → MobileCall → Route
unfolding join_commas
mobile_request_of user_id (get_cart currency_code) = Route.cart (
    sent get (record (in_currency currency_code) { session_id = some user_id })
      (record { user_id = ""; item = none }))
mobile_request_of user_id (add_cart_item currency_code item) =
    Route.cart
      (sent post (in_currency currency_code) (record { user_id = user_id; item = some item }))
mobile_request_of user_id empty_cart =
    Route.cart (sent delete no_query (record { user_id = user_id; item = none }))
mobile_request_of user_id get_supported_currency_list = Route.currency (sent get no_query tt)
mobile_request_of user_id (get_shipping_cost item_list currency_code address) = Route.shipping (
    sent get
      (record (in_currency currency_code) {
        item_list = json (map plain_item item_list);
        address = json address;
      })
      tt)
mobile_request_of user_id (place_order currency_code order) =
    Route.checkout (sent post (in_currency currency_code) order)
mobile_request_of user_id (list_products currency_code) =
    Route.products (sent get (in_currency currency_code) tt)
mobile_request_of user_id (get_product product_id currency_code) =
    Route.product
      (sent get (record (in_currency currency_code) { product_id = some product_id }) tt)
mobile_request_of user_id (list_recommendations product_ids currency_code) = Route.recommendations (
    sent get
      (record (in_currency currency_code) {
        product_ids = text (join_commas product_ids);
        session_id = some user_id;
      })
      tt)
mobile_request_of user_id (list_ads context_keys) =
    Route.data_ads
      (sent get (record no_query { context_keys = text (join_commas context_keys) }) tt)
