-- ===== src/Api/Cart/Contents.antt =====
-- A GET of the cart: the first case of src/frontend/pages/api/cart.ts.
use mathlib.Core.Option
use opentelemetry_demo_mb3r.Prelude.{String, ◌≡◌, ap, ◌∙◌, some, List, [], ◌∷◌, map, Forall₂}
use opentelemetry_demo_mb3r.Proto.{CartItem, AddItemRequest, Cart, Product}
use opentelemetry_demo_mb3r.Calls.{Call, response, Services}
use opentelemetry_demo_mb3r.Promise.{fulfilled, run, run-waiting, run-resolved, run-bind_fulfilled}
use opentelemetry_demo_mb3r.Promise.All.{all, run-all_fulfilled}
use opentelemetry_demo_mb3r.Http.{get, Request, ProductCartItem, product_cart}
use opentelemetry_demo_mb3r.Catalog
use opentelemetry_demo_mb3r.Catalog.Prices.{IsSold, run-get_product}
use opentelemetry_demo_mb3r.Api.Cart.{load_cart_item, cart_switch, cart_handler}

abbrev pub line : CartItem → Product → ProductCartItem
line item product = record {
  product_id = item.product_id;
  quantity = item.quantity;
  product = product;
}

abbrev pub lines : List CartItem → List Product → List ProductCartItem
lines (item ∷ items) (product ∷ products) = line item product ∷ lines items products
lines _ _ = []

abbrev pub session_of : Request AddItemRequest → String
session_of req = Option.get_or req.query.session_id ""

abbrev pub currency_of : Request AddItemRequest → String
currency_of req = Option.get_or req.query.currency_code ""

module _ {S : Type 0} (services : Services S) (s : S) where
  run-load_cart_item :
      (code : String) (item : CartItem) (product : Product)
      → IsSold services s code item.product_id product
      → run services (load_cart_item code item) s ≡ (fulfilled (line item product), s)
  unfolding load_cart_item
  run-load_cart_item code item product sold =
      run-bind_fulfilled services (Catalog.get_product item.product_id code) _ s
        (run-get_product services s code item.product_id product sold)
      ∙ run-resolved services (line item product) s

  loaded_lines :
      (code : String) {items : List CartItem} {products : List Product}
      → Forall₂ (λ item product. IsSold services s code item.product_id product) items products
      → Forall₂
          (λ item l. run services (load_cart_item code item) s ≡ (fulfilled l, s))
          items
          (lines items products)
  loaded_lines code Forall₂.nil = Forall₂.nil
  loaded_lines code (Forall₂.cons {a = item} {b = product} sold rest) =
      Forall₂.cons (run-load_cart_item code item product sold) (loaded_lines code rest)

-- If the cart service has the visitor's cart and the catalog has the product of each of its items,
-- with a price in the visitor's currency, then a GET answers 200 with the items of the cart, in
-- their order, with their quantities and products; the services are left as they are.
pub run-get_cart :
    {S : Type 0} (services : Services S) (s : S) (req : Request AddItemRequest) (found : Cart)
    (products : List Product)
    → req.method ≡ get
    → services (Call.get_cart (session_of req)) s ≡ (response found, s)
    → Forall₂
        (λ item product. IsSold services s (currency_of req) item.product_id product)
        found.items
        products
    → run services (cart_handler req) s ≡ (
      fulfilled (record {
        status_code = 200;
        body =
            some (
              product_cart
                (record { user_id = found.user_id; items = lines found.items products }));
      }),
      s,
    )
unfolding cart_handler
run-get_cart services s req found products method answered sold =
    ap (λ m. run services (cart_switch m req) s) method
    ∙ run-waiting services (Call.get_cart (session_of req)) _ s answered
    ∙ run-bind_fulfilled services (all (map (load_cart_item (currency_of req)) found.items)) _ s (
        run-all_fulfilled services (load_cart_item (currency_of req)) s
          (loaded_lines services s (currency_of req) sold))
    ∙ run-resolved services _ s
