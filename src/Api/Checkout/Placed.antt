-- ===== src/Api/Checkout/Placed.antt =====
-- The answers of the checkout route, src/frontend/pages/api/checkout.ts.
use mathlib.Core.Option
use opentelemetry_demo_mb3r.Prelude.{
  String, ◌≡◌, ◌≢◌, refl, ap, ◌∙◌, some, List, [], ◌∷◌, map, Forall₂,
}
use opentelemetry_demo_mb3r.Proto.{OrderItem, PlaceOrderRequest, PlaceOrderResponse, Product}
use opentelemetry_demo_mb3r.Calls.{Call, Failure, response, error, Services}
use opentelemetry_demo_mb3r.Promise.{
  fulfilled, failed, run, calls, run-waiting, run-resolved, run-rejected, run-bind_fulfilled,
  calls-waiting, calls-rejected,
}
use opentelemetry_demo_mb3r.Promise.All.{all, run-all_fulfilled}
use opentelemetry_demo_mb3r.Http.{
  Method, post, Request, ProductCheckoutItem, product_checkout, Response,
}
use opentelemetry_demo_mb3r.Catalog
use opentelemetry_demo_mb3r.Catalog.Prices.{IsSold, run-get_product}
use opentelemetry_demo_mb3r.Api.Checkout.{
  ordered_item, load_order_item, order_items, order_info, checkout_switch, checkout_handler,
}

abbrev pub checkout_line : OrderItem → Product → ProductCheckoutItem
checkout_line line product = record {
  cost = line.cost;
  item = record {
    product_id = (ordered_item line).product_id;
    quantity = (ordered_item line).quantity;
    product = product;
  };
}

abbrev pub checkout_lines : List OrderItem → List Product → List ProductCheckoutItem
checkout_lines (line ∷ ls) (product ∷ products) =
    checkout_line line product ∷ checkout_lines ls products
checkout_lines _ _ = []

abbrev pub checkout_currency : Request PlaceOrderRequest → String
checkout_currency req = Option.get_or req.query.currency_code ""

module _ {S : Type 0} (services : Services S) (s : S) where
  run-load_order_item :
      (code : String) (line : OrderItem) (product : Product)
      → IsSold services s code (ordered_item line).product_id product
      → run services (load_order_item code line) s ≡ (fulfilled (checkout_line line product), s)
  unfolding load_order_item
  run-load_order_item code line product sold =
      run-bind_fulfilled services (Catalog.get_product (ordered_item line).product_id code) _ s
        (run-get_product services s code (ordered_item line).product_id product sold)
      ∙ run-resolved services (checkout_line line product) s

  loaded_lines :
      (code : String) {ls : List OrderItem} {products : List Product}
      → Forall₂
          (λ l product. IsSold services s code (ordered_item l).product_id product)
          ls
          products
      → Forall₂
          (λ l shown. run services (load_order_item code l) s ≡ (fulfilled shown, s))
          ls
          (checkout_lines ls products)
  loaded_lines code Forall₂.nil = Forall₂.nil
  loaded_lines code (Forall₂.cons {a = l} {b = product} sold rest) =
      Forall₂.cons (run-load_order_item code l product sold) (loaded_lines code rest)

-- If the checkout service places the order, and the catalog then has the product of each of its
-- lines, with a price in the visitor's currency, then a POST answers 200 with the order's data and
-- its lines, in their order, with their costs, quantities and products. The order is placed once,
-- and the state of the services is the one that placing it left.
pub run-checkout :
    {S : Type 0} (services : Services S) (s s' : S) (req : Request PlaceOrderRequest)
    (answer : PlaceOrderResponse) (shown : List Product)
    → req.method ≡ post
    → services (Call.place_order req.body) s ≡ (response answer, s')
    → Forall₂
        (λ l product.
          IsSold services s' (checkout_currency req) (ordered_item l).product_id product)
        (order_items answer)
        shown
    → run services (checkout_handler req) s ≡ (
      fulfilled (record {
        status_code = 200;
        body = some (
            product_checkout (record {
              order = order_info answer;
              items = checkout_lines (order_items answer) shown;
            }));
      }),
      s',
    )
unfolding checkout_handler
run-checkout services s s' req answer shown method placed sold =
    let code = checkout_currency req in
    ap (λ m. run services (checkout_switch m req) s) method
    ∙ run-waiting services (Call.place_order req.body) _ s placed
    ∙ run-bind_fulfilled services (all (map (load_order_item code) (order_items answer))) _ s'
        (run-all_fulfilled services (load_order_item code) s' (loaded_lines services s' code sold))
    ∙ run-resolved services _ s'

other_methods :
    {S : Type 0} (services : Services S) (s : S) (req : Request PlaceOrderRequest) (m : Method)
    → m ≢ post
    → calls services (checkout_switch m req) s ≡ []
unfolding checkout_switch calls
other_methods services s req post h = absurd (h refl)
other_methods services s req _ h = refl

-- Only a POST places an order: the handler makes no call for another method.
pub calls-checkout_other :
    {S : Type 0} (services : Services S) (s : S) (req : Request PlaceOrderRequest)
    → req.method ≢ post
    → calls services (checkout_handler req) s ≡ []
unfolding checkout_handler
calls-checkout_other services s req = other_methods services s req req.method

-- If the service refuses a POST's order, the handler fails with the service's error, and that call
-- was the only one: no product is looked up.
pub checkout_refused :
    {S : Type 0} (services : Services S) (s s' : S) (req : Request PlaceOrderRequest) (e : Failure)
    → req.method ≡ post
    → services (Call.place_order req.body) s ≡ (error e, s')
    → (run services (checkout_handler req) s ≡ (failed e, s'))
      × (calls services (checkout_handler req) s ≡ Call.place_order req.body ∷ [])
unfolding checkout_handler
checkout_refused services s s' req e method refused =
    let c = Call.place_order req.body in
    (
      ap (λ m. run services (checkout_switch m req) s) method
          ∙ run-waiting services c _ s refused
          ∙ run-rejected services e s',
      ap (λ m. calls services (checkout_switch m req) s) method
          ∙ calls-waiting services c _ s refused
          ∙ ap (λ cs. c ∷ cs) (calls-rejected services Response e s'),
    )
