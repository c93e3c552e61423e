-- ===== src/Api/Checkout.antt =====
-- src/frontend/pages/api/checkout.ts
pub mod Placed
use mathlib.Core.Option
use opentelemetry_demo_mb3r.Prelude.{String, pos, Option, none, some, List, [], map}
use opentelemetry_demo_mb3r.Proto.{
  CartItem, OrderItem, OrderResult, PlaceOrderRequest, PlaceOrderResponse,
}
use opentelemetry_demo_mb3r.Promise.{Promise, resolved, ◌>>=◌}
use opentelemetry_demo_mb3r.Promise.All.{all}
use opentelemetry_demo_mb3r.Http.{
  Method, post, Request, ProductCheckoutItem, OrderInfo, product_checkout, empty, Response, fresh,
  status, send,
}
use opentelemetry_demo_mb3r.Gateways
use opentelemetry_demo_mb3r.Catalog

-- `{ item: { productId = '', quantity = 0 } = {} }`.
abbrev pub ordered_item : OrderItem → CartItem
ordered_item line = Option.get_or line.item (record { product_id = ""; quantity = pos 0 })

unfoldable pub load_order_item : String → OrderItem → Promise ProductCheckoutItem
unfolding Catalog.get_product
load_order_item currency_code line =
    let item = ordered_item line in
    Catalog.get_product item.product_id currency_code >>= λ product. resolved (record {
      cost = line.cost;
      item = record { product_id = item.product_id; quantity = item.quantity; product = product };
    })

-- `{ order: { items = [], ...order } = {} }`: the items, and the other fields if there is an order.
abbrev pub order_items : PlaceOrderResponse → List OrderItem
order_items answer = elim answer.order [ none ↦ [] | some order ↦ order.items ]

abbrev pub info_of : OrderResult → OrderInfo
info_of order = record {
  order_id = order.order_id;
  shipping_tracking_id = order.shipping_tracking_id;
  shipping_cost = order.shipping_cost;
  shipping_address = order.shipping_address;
}

abbrev pub order_info : PlaceOrderResponse → Option OrderInfo
order_info answer = Option.map info_of answer.order

unfoldable pub place_order_route : Request PlaceOrderRequest → Promise Response
unfolding load_order_item Gateways.Checkout.place_order
place_order_route req =
    let currency_code = Option.get_or req.query.currency_code "" in
    Gateways.Checkout.place_order req.body >>= λ answer.
    all (map (load_order_item currency_code) (order_items answer)) >>= λ product_list. resolved (
      send (product_checkout (record { order = order_info answer; items = product_list }))
        (status 200 fresh))

unfoldable pub checkout_switch : Method → Request PlaceOrderRequest → Promise Response
unfolding place_order_route
checkout_switch post req = place_order_route req
checkout_switch _ req = resolved (send empty (status 405 fresh))

unfoldable pub checkout_handler : Request PlaceOrderRequest → Promise Response
unfolding checkout_switch
checkout_handler req = checkout_switch req.method req
