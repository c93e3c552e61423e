-- ===== src/Tests/Wire.antt =====
-- The wire format and the clients, over a small wire.
use opentelemetry_demo_mb3r.Prelude.{◌≢◌, List, All, ◌++◌, pos, ◌≡◌, refl, some, [], ◌∷◌, arith}
use opentelemetry_demo_mb3r.Proto.{PlaceOrderRequest}
use opentelemetry_demo_mb3r.Calls.{Call, service_error, Failure}
use opentelemetry_demo_mb3r.Promise.{run}
use opentelemetry_demo_mb3r.Promise.All.{all}
use opentelemetry_demo_mb3r.Catalog.{price_product}
use opentelemetry_demo_mb3r.Http.{post}
use opentelemetry_demo_mb3r.Api.Checkout.{checkout_handler}
use opentelemetry_demo_mb3r.Wire.{Bytes, goes_on, run_loop}
use opentelemetry_demo_mb3r.Wire.Money.{read_money, encode_money, decode_money}
use opentelemetry_demo_mb3r.Wire.Cart.{encode_cart_item}
use opentelemetry_demo_mb3r.Wire.Money.RoundTrip.{FitsMoney}
use opentelemetry_demo_mb3r.Wire.Order.RoundTrip.{FitsOrderItem}
use opentelemetry_demo_mb3r.Wire.Order.{
  encode_order_result, encode_address, encode_credit_card_info,
}
use opentelemetry_demo_mb3r.Wire.Product.{
  encode_product, decode_product, read_product, read_list_products_response,
  base_list_products_response,
}
use opentelemetry_demo_mb3r.Wire.Checkout.{encode_place_order_request, decode_place_order_request}
use opentelemetry_demo_mb3r.Wire.Checkout.RoundTrip.{
  FitsPlaceOrderRequest, decode_place_order_request-encode_place_order_request,
}
use opentelemetry_demo_mb3r.Wire.Product.RoundTrip.{FitsProduct}
use opentelemetry_demo_mb3r.Wire.Product.Newer.{decode_product_newer}
use opentelemetry_demo_mb3r.Wire.Unknown.{Field, put_fields, IsSkipped}
use opentelemetry_demo_mb3r.Wire.Product.Fuel.{decode_list_products_response_ends}
use opentelemetry_demo_mb3r.Stub.{over_wire}
use opentelemetry_demo_mb3r.Stub.Carried.{FitsRun, FitsReply, run-over_wire}
use opentelemetry_demo_mb3r.Stub.Exchange.{OnResponse}
use opentelemetry_demo_mb3r.Fixtures.{
  ten_dollars, lens_kit, home, shop, one_cart, request_u1, nine_euros, kits_line,
}
use opentelemetry_demo_mb3r.TestWire.{test_wire}

money_bytes :
    encode_money test_wire ten_dollars
    ≡ 10 ∷ 3 ∷ 85 ∷ 83 ∷ 68 ∷ 16 ∷ 0 ∷ 10 ∷ 24 ∷ 0 ∷ 500000000 ∷ []
unfolding encode_money
money_bytes = refl

-- A field number without a case is skipped, and an end tag ends the message.
money_unknown :
    decode_money test_wire (48 ∷ 7 ∷ 10 ∷ 1 ∷ 88 ∷ 4 ∷ 9 ∷ [])
    ≡ some (record { currency_code = "X"; units = pos 0; nanos = pos 0 })
unfolding decode_money
money_unknown = refl

abbrev order : PlaceOrderRequest
order = record {
  user_id = "u1";
  user_currency = "EUR";
  address = some home;
  email = "someone@example.com";
  credit_card = some (record {
    credit_card_number = "4432801561520454";
    credit_card_cvv = pos 672;
    credit_card_expiration_year = pos 2030;
    credit_card_expiration_month = pos 1;
  });
}

order_fits : FitsPlaceOrderRequest test_wire order
unfolding encode_address encode_credit_card_info
order_fits = (
  omega arith,
  (
    ((omega arith, omega arith), (omega arith, omega arith), (omega arith, omega arith)),
    omega arith,
  ),
)

decode_place_order_request-encode_place_order_request_example :
    decode_place_order_request test_wire (encode_place_order_request test_wire order) ≡ some order
decode_place_order_request-encode_place_order_request_example =
    decode_place_order_request-encode_place_order_request test_wire order order_fits

kit_fits : FitsProduct test_wire lens_kit
unfolding encode_money
kit_fits = (((omega arith), (omega arith, omega arith)), omega arith)

abbrev kits_bytes : Bytes
kits_bytes = 10 ∷ 4 ∷ 10 ∷ 2 ∷ 76 ∷ 57 ∷ []

decode_list_products_response_ends_example :
    (run_loop test_wire
        (read_list_products_response test_wire)
        7
        (some 0)
        base_list_products_response
        kits_bytes
      ≢ goes_on)
    × (run_loop test_wire (read_product test_wire) 7 (some 0) lens_kit kits_bytes ≢ goes_on)
    × (run_loop test_wire (read_money test_wire) 7 (some 0) ten_dollars kits_bytes ≢ goes_on)
decode_list_products_response_ends_example =
    decode_list_products_response_ends test_wire 7 (some 0) kits_bytes base_list_products_response
      lens_kit ten_dollars (omega arith)

abbrev undecodable : Failure
undecodable = service_error 13 "cannot be read"

dollars_fit : FitsMoney test_wire ten_dollars
dollars_fit = (omega arith, (omega arith, omega arith))

euros_fit : FitsMoney test_wire nine_euros
euros_fit = (omega arith, (omega arith, omega arith))

line_fits : FitsOrderItem test_wire kits_line
unfolding encode_cart_item encode_money
line_fits = (((omega arith, omega arith), omega arith), (dollars_fit, omega arith))

placed_fits :
    OnResponse
      (FitsReply test_wire (Call.place_order order))
      (shop (Call.place_order order) one_cart).0
unfolding encode_order_result
placed_fits =
    (((euros_fit, omega arith), omega arith, (((line_fits, omega arith), tt))), omega arith)

order_run : FitsRun test_wire shop (checkout_handler (request_u1 post order)) one_cart
unfolding checkout_handler all price_product
order_run = (order_fits, placed_fits, (tt, kit_fits, (kit_fits, euros_fit, tt)))

run-over_wire_example :
    run (over_wire test_wire undecodable shop) (checkout_handler (request_u1 post order)) one_cart
    ≡ run shop (checkout_handler (request_u1 post order)) one_cart
run-over_wire_example =
    run-over_wire test_wire undecodable shop (checkout_handler (request_u1 post order)) one_cart
      order_run

-- Fields that a newer service could send.
abbrev newer : List Field
newer = (57, 1 ∷ []) ∷ (66, 2 ∷ []) ∷ []

newer-IsSkipped : All (IsSkipped test_wire 7) newer
newer-IsSkipped = (
  (omega arith, omega arith, refl, λ rest. refl),
  ((omega arith, omega arith, refl, λ rest. refl), tt),
)

decode_product_newer_example :
    decode_product test_wire (
      put_fields test_wire newer ++ encode_product test_wire lens_kit ++ put_fields test_wire newer)
    ≡ some lens_kit
decode_product_newer_example =
    decode_product_newer test_wire lens_kit newer newer kit_fits newer-IsSkipped newer-IsSkipped
