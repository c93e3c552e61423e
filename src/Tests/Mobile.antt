-- ===== src/Tests/Mobile.antt =====
-- The mobile app's session, and the JSON of an order.
use opentelemetry_demo_mb3r.Prelude.{ℤ, pos, String, ◌≡◌, refl, Option, none, some, [], ◌∷◌, arith}
use opentelemetry_demo_mb3r.Proto.{PlaceOrderResponse}
use opentelemetry_demo_mb3r.Json.{Json, string, number, Conversions}
use opentelemetry_demo_mb3r.Json.Checkout.{
  from_json_place_order_response, to_json_place_order_response,
}
use opentelemetry_demo_mb3r.Json.Checkout.RoundTrip.{
  from_json_place_order_response-to_json_place_order_response,
}
use opentelemetry_demo_mb3r.Mobile.Session.{
  SessionApp, start, get_session, go_on, default_of, resume, resume_at, session_step, session_steps,
  returned_by,
}
use opentelemetry_demo_mb3r.Mobile.Session.Same.{get_session_same}
use opentelemetry_demo_mb3r.Mobile.Session.Returns.{thrice, get_session_returns}

abbrev test_text : Json → String
test_text (string s) = s
test_text _ = ""

abbrev test_number : Json → Option ℤ
test_number (number n) = some n
test_number _ = none

abbrev test_conversions : Conversions
test_conversions = record {
  to_text = test_text;
  to_number = test_number;
  text_law = λ s. refl;
  number_law = λ n. refl;
}

abbrev test_order : PlaceOrderResponse
test_order = record {
  order = some record {
    order_id = "o1";
    shipping_tracking_id = "";
    shipping_cost = some record { currency_code = "USD"; units = pos 8; nanos = pos 0 };
    shipping_address = none;
    items =
        (record { item = some record { product_id = "OLJCESPC7Z"; quantity = pos 2 }; cost = none })
        ∷ [];
  };
}

from_json_place_order_response-to_json_place_order_response_example :
    from_json_place_order_response test_conversions (to_json_place_order_response test_order)
    ≡ some test_order
from_json_place_order_response-to_json_place_order_response_example =
    from_json_place_order_response-to_json_place_order_response test_conversions test_order

abbrev no_session : SessionApp
no_session = record { storage = none; default_session = default_of "u1"; calls = [] }

-- Two calls read before either writes; the app is started again, and reads once more.
get_session_same_example : default_of "u1" ≡ default_of "u1"
unfolding session_steps session_step resume_at resume
get_session_same_example =
    get_session_same (get_session ∷ get_session ∷ go_on 0 ∷ go_on 1 ∷ go_on 0 ∷ go_on 0 ∷ [])
      (go_on 1 ∷ go_on 1 ∷ start "u2" ∷ get_session ∷ go_on 0 ∷ []) no_session 0 0 (default_of "u1")
      (default_of "u1") refl (tt, (tt, (tt, (tt, (tt, (tt, tt)))))) (tt, (tt, (tt, (tt, (tt, tt)))))
      refl refl

get_session_returns_example :
    returned_by 1
      (session_steps
        (thrice 1)
        (session_steps (get_session ∷ get_session ∷ go_on 0 ∷ go_on 1 ∷ []) no_session)).calls
    ≡ some (default_of "u1")
unfolding session_steps session_step resume_at resume
get_session_returns_example =
    get_session_returns (get_session ∷ get_session ∷ go_on 0 ∷ go_on 1 ∷ []) no_session 1 refl
      (tt, (tt, (tt, (tt, tt)))) (omega arith)
