-- ===== src/Tests/Cart.antt =====
-- The routes of the cart and of the shipping cost, over a small shop.
use opentelemetry_demo_mb3r.Prelude.{
  pos, String, true, ◌≡◌, ◌≢◌, refl, Option, none, some, List, [], ◌∷◌, eq_iff, arith, Forall₂,
}
use opentelemetry_demo_mb3r.Proto.{CartItem, AddItemRequest, Cart}
use opentelemetry_demo_mb3r.Promise.{fulfilled, run}
use opentelemetry_demo_mb3r.Http.{
  get, post, delete, json, Request, product_cart, cart, money, empty,
}
use opentelemetry_demo_mb3r.Fixtures.{
  Carts, lens_kit_in_euros, nine_euros, two_kits, cart_held, shop, one_cart, home, query_u1,
  request_u1, shop_contract, kit-IsSold,
}
use opentelemetry_demo_mb3r.Api.Cart.{cart_handler}
use opentelemetry_demo_mb3r.Api.Cart.Contents.{run-get_cart}
use opentelemetry_demo_mb3r.Api.Cart.Visits.{run-add_item, run-empty_cart}
use opentelemetry_demo_mb3r.Api.Shipping.{shipping_handler}
use opentelemetry_demo_mb3r.Api.Shipping.Quoted.{run-shipping}

abbrev of_u1 : Option CartItem → AddItemRequest
of_u1 item = record { user_id = "u1"; item = item }

abbrev cart_of : String → List CartItem → Cart
cart_of u items = record { user_id = u; items = items }

abbrev cart_u1 : List CartItem → Cart
cart_u1 = cart_of "u1"

abbrev four_kits : CartItem
four_kits = record two_kits { quantity = pos 4 }

abbrev visitor : String
visitor = "u2"

other_visitor : visitor ≢ "u1"
other_visitor = λ h. ground (arith, eq_iff visitor "u1")

run-add_item_example :
    (s' : Carts) × (run shop (cart_handler (request_u1 post (of_u1 (some two_kits)))) one_cart ≡ (
      fulfilled (record { status_code = 200; body = some (cart (cart_held "u1" (s' "u1"))) }),
      s',
    ))
    × ((cart_held "u1" (s' "u1")).items ≡ four_kits ∷ [])
    × (cart_held visitor (s' visitor) ≡ cart_of "" [])
unfolding opentelemetry_demo_mb3r.Prelude.◌+ℤ◌
run-add_item_example =
    run-add_item shop shop_contract (request_u1 post (of_u1 (some two_kits))) two_kits one_cart
      visitor refl refl other_visitor

run-empty_cart_example :
    (s' : Carts) × (run shop (cart_handler (request_u1 delete (of_u1 none))) one_cart
      ≡ (fulfilled (record { status_code = 204; body = some empty }), s'))
    × (run shop (cart_handler (request_u1 get (of_u1 none))) s' ≡ (
      fulfilled (record {
        status_code = 200;
        body =
            some
              (product_cart (record { user_id = (cart_held "u1" (s' "u1")).user_id; items = [] }));
      }),
      s',
    ))
    × (cart_held visitor (s' visitor) ≡ cart_of "" [])
run-empty_cart_example =
    run-empty_cart shop shop_contract (request_u1 delete (of_u1 none)) (request_u1 get (of_u1 none))
      one_cart visitor refl refl refl other_visitor

run-get_cart_example : run shop (cart_handler (request_u1 get (of_u1 none))) one_cart ≡ (
  fulfilled (record {
    status_code = 200;
    body = some (
        product_cart (record {
          user_id = "u1";
          items = record { product_id = "L9"; quantity = pos 2; product = lens_kit_in_euros } ∷ [];
        }));
  }),
  one_cart,
)
run-get_cart_example =
    run-get_cart shop one_cart (request_u1 get (of_u1 none)) (cart_u1 (two_kits ∷ []))
      (lens_kit_in_euros ∷ []) refl refl (Forall₂.cons (kit-IsSold one_cart) Forall₂.nil)

abbrev quote_request : List CartItem → Request (Unit {0})
quote_request items = record {
  method = get;
  query = record query_u1 { item_list = json items; address = json home };
  body = tt;
}

run-shipping_example :
    run shop (shipping_handler (quote_request (two_kits ∷ []))) one_cart
    ≡ (fulfilled (record { status_code = 200; body = some (money nine_euros) }), one_cart)
run-shipping_example =
    run-shipping shop one_cart one_cart one_cart (quote_request (two_kits ∷ [])) (two_kits ∷ [])
      home
      (record {
        ok = true;
        status_line = "HTTP error: 200 OK";
        text = "";
        json_data = some (some (record { currency_code = "USD"; units = pos 8; nanos = pos 0 }));
      })
      (some (record { currency_code = "USD"; units = pos 8; nanos = pos 0 })) nine_euros refl refl
      refl refl refl refl refl
