-- ===== src/Tests/Checkout.antt =====
-- The checkout route, over a small shop.
use opentelemetry_demo_mb3r.Prelude.{pos, String, ◌≡◌, refl, none, some, [], ◌∷◌, Forall₂}
use opentelemetry_demo_mb3r.Proto.{PlaceOrderRequest, PlaceOrderResponse}
use opentelemetry_demo_mb3r.Promise.{fulfilled, run}
use opentelemetry_demo_mb3r.Http.{post, product_checkout}
use opentelemetry_demo_mb3r.Fixtures.{
  lens_kit_in_euros, nine_euros, ten_dollars, kits_line, clear, shop, one_cart, home, request_u1,
  kit-IsSold,
}
use opentelemetry_demo_mb3r.Api.Checkout.{checkout_handler}
use opentelemetry_demo_mb3r.Api.Checkout.Placed.{run-checkout}

abbrev order_of : String → PlaceOrderRequest
order_of u = record {
  user_id = u;
  user_currency = "EUR";
  address = some home;
  email = "someone@example.com";
  credit_card = none;
}

abbrev placed : PlaceOrderResponse
placed = record {
  order = some (record {
    order_id = "O1";
    shipping_tracking_id = "S1";
    shipping_cost = some nine_euros;
    shipping_address = some home;
    items = kits_line ∷ [];
  });
}

run-checkout_example : run shop (checkout_handler (request_u1 post (order_of "u1"))) one_cart ≡ (
  fulfilled (record {
    status_code = 200;
    body = some (
        product_checkout (record {
          order = some (record {
            order_id = "O1";
            shipping_tracking_id = "S1";
            shipping_cost = some nine_euros;
            shipping_address = some home;
          });
          items =
              record {
                cost = some ten_dollars;
                item = record { product_id = "L9"; quantity = pos 2; product = lens_kit_in_euros };
              }
              ∷ [];
        }));
  }),
  clear "u1" one_cart,
)
run-checkout_example =
    run-checkout shop one_cart (clear "u1" one_cart) (request_u1 post (order_of "u1")) placed
      (lens_kit_in_euros ∷ []) refl refl
      (Forall₂.cons (kit-IsSold (clear "u1" one_cart)) Forall₂.nil)
