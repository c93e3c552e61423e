-- ===== src/Client.antt =====
-- src/frontend/gateways/Api.gateway.ts and src/frontend/utils/Request.ts: the requests of the
-- client, as the handlers receive them. The file under src/frontend/pages/api that the path of a
-- URL names has the route, and a segment in brackets is a query parameter. `URLSearchParams` writes
-- a list as its elements joined by commas, and a handler reads that as one text. A body that a
-- handler does not read is left empty. The session's baggage does not reach the handlers.
pub mod Delivery
pub mod Keys
use Prim.Native.String
use Prim.Native.Char.{code}
use opentelemetry_demo_mb3r.Prelude.{
  ℕ, String, Bool, true, ◌&&◌, ◌||◌, not, eqb, ◌==◌, Option, none, some, List, [], ◌∷◌, map,
}
use opentelemetry_demo_mb3r.Proto.{CartItem, AddItemRequest, Address, PlaceOrderRequest}
use opentelemetry_demo_mb3r.Http.{
  Method, get, post, delete, undefined, text, malformed, json, Query, Request, ProductCartItem,
}
use opentelemetry_demo_mb3r.Api.Routes
use opentelemetry_demo_mb3r.Api.Routes.{Route}

-- `String(list)`.
unfoldable pub join_commas : List String → String
join_commas [] = ""
join_commas (key ∷ []) = key
join_commas (key ∷ (next ∷ keys)) = String.◌++◌ key (String.◌++◌ "," (join_commas (next ∷ keys)))

abbrev pub no_query : Query
no_query = record {
  session_id = none;
  currency_code = none;
  product_id = none;
  product_ids = undefined;
  context_keys = undefined;
  item_list = malformed;
  address = malformed;
}

abbrev pub in_currency : String → Query
in_currency currency_code = record no_query { currency_code = some currency_code }

abbrev pub about_product : String → Query
about_product product_id = record no_query { product_id = some product_id }

abbrev pub sent : {B : Type 0} → Method → Query → B → Request B
sent method query body = record { method = method; query = query; body = body }

-- `{ itemList: itemList.map(({ productId, quantity }) => ({ productId, quantity })) }`.
abbrev pub plain_item : ProductCartItem → CartItem
plain_item line = record { product_id = line.product_id; quantity = line.quantity }

-- The methods of the gateway, with their arguments.
pub data ApiCall : Type 0 where
  get_cart : String → ApiCall
  add_cart_item : String → CartItem → ApiCall
  empty_cart get_supported_currency_list : ApiCall
  get_shipping_cost : List ProductCartItem → String → Address → ApiCall
  place_order : String → PlaceOrderRequest → ApiCall
  list_products : String → ApiCall
  get_product : String → String → ApiCall
  get_product_reviews get_average_product_review_score : String → ApiCall
  ask_product_ai_assistant : String → String → ApiCall
  list_recommendations : List String → String → ApiCall
  list_ads : List String → ApiCall

-- A product identifier is written into the path of a URL as it is. These characters have a meaning
-- in a path or to the parser of URLs, and are not the identifier that the handler reads: a line break
-- or a tabulator, and `#`, `%`, `/`, `?`, and the backslash.
abbrev is_plain_char : ℕ → Bool
is_plain_char c = not (
    eqb c 9
    || (eqb c 10 || (eqb c 13 || (eqb c 35 || (eqb c 37 || (eqb c 47 || (eqb c 63 || eqb c 92)))))))

abbrev are_plain : String → Bool
are_plain String.[] = true
are_plain (String.◌∷◌ c s) = let rest = are_plain s in is_plain_char (code c) && rest

-- The identifier is one segment of the path, and stays as it is.
abbrev pub is_segment : String → Bool
is_segment id = not (id == "") && (not (id == ".") && (not (id == "..") && are_plain id))

-- The request of a call, for the `userId` of the session. The requests about a product are those for
-- an identifier that is a segment of the path; another one (`../checkout`) may name another route.
unfoldable pub request_of : String → ApiCall → Route
unfolding join_commas
request_of user_id (get_cart currency_code) = Route.cart (
    sent get (record (in_currency currency_code) { session_id = some user_id })
      (record { user_id = ""; item = none }))
request_of user_id (add_cart_item currency_code item) =
    Route.cart
      (sent post (in_currency currency_code) (record { user_id = user_id; item = some item }))
request_of user_id empty_cart =
    Route.cart (sent delete no_query (record { user_id = user_id; item = none }))
request_of user_id get_supported_currency_list = Route.currency (sent get no_query tt)
request_of user_id (get_shipping_cost item_list currency_code address) = Route.shipping (
    sent get
      (record (in_currency currency_code) {
        item_list = json (map plain_item item_list);
        address = json address;
      })
      tt)
request_of user_id (place_order currency_code order) =
    Route.checkout (sent post (in_currency currency_code) order)
request_of user_id (list_products currency_code) =
    Route.products (sent get (in_currency currency_code) tt)
request_of user_id (get_product product_id currency_code) =
    Route.product
      (sent get (record (in_currency currency_code) { product_id = some product_id }) tt)
request_of user_id (get_product_reviews product_id) =
    Route.reviews (sent get (about_product product_id) tt)
request_of user_id (get_average_product_review_score product_id) =
    Route.average_score (sent get (about_product product_id) tt)
request_of user_id (ask_product_ai_assistant product_id question) =
    Route.ask (sent post (about_product product_id) question)
request_of user_id (list_recommendations product_ids currency_code) = Route.recommendations (
    sent get
      (record (in_currency currency_code) {
        product_ids = text (join_commas product_ids);
        session_id = some user_id;
      })
      tt)
request_of user_id (list_ads context_keys) =
    Route.data_ads
      (sent get (record no_query { context_keys = text (join_commas context_keys) }) tt)
