-- ===== src/Api/Cart.antt =====
-- src/frontend/pages/api/cart.ts
pub mod Contents
pub mod Lookups
pub mod InTime
pub mod Visits
use mathlib.Core.Option
use opentelemetry_demo_mb3r.Prelude.{String, map}
use opentelemetry_demo_mb3r.Proto.{CartItem, AddItemRequest}
use opentelemetry_demo_mb3r.Promise.{Promise, resolved, ◌>>=◌, ◌>>◌}
use opentelemetry_demo_mb3r.Promise.All.{all}
use opentelemetry_demo_mb3r.Http.{
  Method, get, post, delete, Request, ProductCartItem, product_cart, cart, empty, Response, fresh,
  status, send,
}
use opentelemetry_demo_mb3r.Gateways
use opentelemetry_demo_mb3r.Catalog

unfoldable pub load_cart_item : String → CartItem → Promise ProductCartItem
unfolding Catalog.get_product
load_cart_item currency_code item = Catalog.get_product item.product_id currency_code >>= λ product.
    resolved (record { product_id = item.product_id; quantity = item.quantity; product = product })

unfoldable pub get_cart_route : Request AddItemRequest → Promise Response
unfolding load_cart_item Gateways.Cart.get_cart
get_cart_route req =
    let session_id = Option.get_or req.query.session_id "" in
    let currency_code = Option.get_or req.query.currency_code "" in
    Gateways.Cart.get_cart session_id >>= λ found.
    all (map (load_cart_item currency_code) found.items) >>= λ product_list. resolved (
      send (product_cart (record { user_id = found.user_id; items = product_list }))
        (status 200 fresh))

unfoldable pub add_item_route : Request AddItemRequest → Promise Response
unfolding Gateways.Cart.add_item Gateways.Cart.get_cart
add_item_route req =
    Gateways.Cart.add_item req.body.user_id req.body.item
    >> (Gateways.Cart.get_cart req.body.user_id >>= λ found.
        resolved (send (cart found) (status 200 fresh)))

unfoldable pub empty_cart_route : Request AddItemRequest → Promise Response
unfolding Gateways.Cart.empty_cart
empty_cart_route req =
    Gateways.Cart.empty_cart req.body.user_id >> resolved (send empty (status 204 fresh))

-- The last branch sets the status and sends nothing.
unfoldable pub cart_switch : Method → Request AddItemRequest → Promise Response
unfolding get_cart_route add_item_route empty_cart_route
cart_switch get req = get_cart_route req
cart_switch post req = add_item_route req
cart_switch delete req = empty_cart_route req
cart_switch _ req = resolved (status 405 fresh)

unfoldable pub cart_handler : Request AddItemRequest → Promise Response
unfolding cart_switch
cart_handler req = cart_switch req.method req
