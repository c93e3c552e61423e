-- ===== src/Api/Routes/Statuses.antt =====
-- The status of the responses of src/frontend/pages/api, and whether they are ended.
use Prim.Native.Nat.{compare, Ordering}
use opentelemetry_demo_mb3r.Prelude.{ℕ, String, ◌≡◌, Bool, true, false}
use opentelemetry_demo_mb3r.Calls.{Services}
use opentelemetry_demo_mb3r.Proto.{AddItemRequest, PlaceOrderRequest}
use opentelemetry_demo_mb3r.Promise.{fulfilled, outcome}
use opentelemetry_demo_mb3r.Promise.Returns.{Returns, returns_rules, Returns-outcome}
use opentelemetry_demo_mb3r.Http.{Method, get, post, delete, Request, Response, is_ended}
use opentelemetry_demo_mb3r.Api.Cart.{cart_switch}
use opentelemetry_demo_mb3r.Api.Checkout.{checkout_switch}
use opentelemetry_demo_mb3r.Api.Products.{products_switch, product_switch}
use opentelemetry_demo_mb3r.Api.Recommendations.{recommendations_switch}
use opentelemetry_demo_mb3r.Api.Data.{data_switch}
use opentelemetry_demo_mb3r.Api.Currency.{currency_switch}
use opentelemetry_demo_mb3r.Api.Shipping.{shipping_switch}
use opentelemetry_demo_mb3r.Api.ProductReviews.{reviews_switch, average_score_switch, ask_switch}
use opentelemetry_demo_mb3r.Api.Routes.{
  Route, cart, checkout, products, product, recommendations, data_ads, currency, shipping, reviews,
  average_score, ask, handle,
}

-- The status that the API promises: 200 for the methods of a route, 204 for an emptied cart, 405
-- for every other method.
abbrev pub read_status : Method → ℕ
read_status get = 200
read_status _ = 405

abbrev pub write_status : Method → ℕ
write_status post = 200
write_status _ = 405

abbrev pub cart_status : Method → ℕ
cart_status get = 200
cart_status post = 200
cart_status delete = 204
cart_status _ = 405

abbrev pub promised_status : Route → ℕ
promised_status (cart req) = cart_status req.method
promised_status (checkout req) = write_status req.method
promised_status (products req) = read_status req.method
promised_status (product req) = read_status req.method
promised_status (recommendations req) = read_status req.method
promised_status (data_ads req) = read_status req.method
promised_status (currency req) = read_status req.method
promised_status (shipping req) = read_status req.method
promised_status (reviews req) = read_status req.method
promised_status (average_score req) = read_status req.method
promised_status (ask req) = write_status req.method

-- False on the status 405 of the three routes that then send nothing.
abbrev pub is_allowed : ℕ → Bool
is_allowed code = elim (compare code 405) [ Ordering.eq ↦ false | _ ↦ true ]

abbrev pub ends : Route → Bool
ends (cart req) = is_allowed (cart_status req.method)
ends (currency req) = is_allowed (read_status req.method)
ends (shipping req) = is_allowed (read_status req.method)
ends _ = true

abbrev Has : ℕ → Bool → Response → Type 0
Has code ended res = (res.status_code ≡ code) × (is_ended res ≡ ended)

cart_switch-Has :
    (m : Method) (req : Request AddItemRequest)
    → Returns (Has (cart_status m) (is_allowed (cart_status m))) (cart_switch m req)
unfolding cart_switch
cart_switch-Has get req = search returns_rules
cart_switch-Has _ req = search returns_rules

checkout_switch-Has :
    (m : Method) (req : Request PlaceOrderRequest)
    → Returns (Has (write_status m) true) (checkout_switch m req)
unfolding checkout_switch
checkout_switch-Has post req = search returns_rules
checkout_switch-Has _ req = search returns_rules

ask_switch-Has :
    (m : Method) (req : Request String) → Returns (Has (write_status m) true) (ask_switch m req)
unfolding ask_switch
ask_switch-Has post req = search returns_rules
ask_switch-Has _ req = search returns_rules

currency_switch-Has :
    (m : Method) (req : Request (Unit {0}))
    → Returns (Has (read_status m) (is_allowed (read_status m))) (currency_switch m req)
unfolding currency_switch
currency_switch-Has get req = search returns_rules
currency_switch-Has _ req = search returns_rules

shipping_switch-Has :
    (m : Method) (req : Request (Unit {0}))
    → Returns (Has (read_status m) (is_allowed (read_status m))) (shipping_switch m req)
unfolding shipping_switch
shipping_switch-Has get req = search returns_rules depth 9
shipping_switch-Has _ req = search returns_rules

module _ (req : Request (Unit {0})) where
  products_switch-Has : (m : Method) → Returns (Has (read_status m) true) (products_switch m req)
  unfolding products_switch
  products_switch-Has get = search returns_rules
  products_switch-Has _ = search returns_rules

  product_switch-Has : (m : Method) → Returns (Has (read_status m) true) (product_switch m req)
  unfolding product_switch
  product_switch-Has get = search returns_rules
  product_switch-Has _ = search returns_rules

  recommendations_switch-Has :
      (m : Method) → Returns (Has (read_status m) true) (recommendations_switch m req)
  unfolding recommendations_switch
  recommendations_switch-Has get = search returns_rules
  recommendations_switch-Has _ = search returns_rules

  data_switch-Has : (m : Method) → Returns (Has (read_status m) true) (data_switch m req)
  unfolding data_switch
  data_switch-Has get = search returns_rules
  data_switch-Has _ = search returns_rules

  reviews_switch-Has : (m : Method) → Returns (Has (read_status m) true) (reviews_switch m req)
  unfolding reviews_switch
  reviews_switch-Has get = search returns_rules
  reviews_switch-Has _ = search returns_rules

  average_score_switch-Has :
      (m : Method) → Returns (Has (read_status m) true) (average_score_switch m req)
  unfolding average_score_switch
  average_score_switch-Has get = search returns_rules
  average_score_switch-Has _ = search returns_rules

handle-Has : (route : Route) → Returns (Has (promised_status route) (ends route)) (handle route)
unfolding handle
handle-Has (cart req) = cart_switch-Has req.method req
handle-Has (checkout req) = checkout_switch-Has req.method req
handle-Has (products req) = products_switch-Has req req.method
handle-Has (product req) = product_switch-Has req req.method
handle-Has (recommendations req) = recommendations_switch-Has req req.method
handle-Has (data_ads req) = data_switch-Has req req.method
handle-Has (currency req) = currency_switch-Has req.method req
handle-Has (shipping req) = shipping_switch-Has req.method req
handle-Has (reviews req) = reviews_switch-Has req req.method
handle-Has (average_score req) = average_score_switch-Has req req.method
handle-Has (ask req) = ask_switch-Has req.method req

-- Whatever the services answer: if a route's handler is fulfilled, then the status of the response
-- is the promised one, and the response is ended exactly unless the route is the cart, the
-- currency or the shipping route and its status is 405.
pub handle_status :
    {S : Type 0} (services : Services S) (route : Route) (s : S) (res : Response)
    → outcome services (handle route) s ≡ fulfilled res
    → (res.status_code ≡ promised_status route) × (is_ended res ≡ ends route)
handle_status services route s res h =
    Returns-outcome services (handle route) s res (handle-Has route) h
