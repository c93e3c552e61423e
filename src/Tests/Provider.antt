-- ===== src/Tests/Provider.antt =====
-- The cart that the pages show, over a small shop and a small query client.
use opentelemetry_demo_mb3r.Prelude.{String, ◌≡◌, refl, Option, none, some, pos, List, [], ◌∷◌}
use opentelemetry_demo_mb3r.Promise.{fulfilled, run}
use opentelemetry_demo_mb3r.Promise.All.{all}
use opentelemetry_demo_mb3r.Http.{Response, ProductCartItem, product_cart}
use opentelemetry_demo_mb3r.Catalog.{price_product}
use opentelemetry_demo_mb3r.Api.Routes.{handle}
use opentelemetry_demo_mb3r.Client.{request_of}
use opentelemetry_demo_mb3r.Provider.{
  QueryClient, CartAction, select_currency, render, add_item, Page, act, acts, shown,
}
use opentelemetry_demo_mb3r.Provider.Coherence.{AreWhole, answered, shown-acts}
use opentelemetry_demo_mb3r.Fixtures.{lens_kit_in_euros, two_kits, shop, one_cart, shop-IsReadOnly}
use opentelemetry_demo_mb3r.TestCache.{test_client}

abbrev client : QueryClient Response
client = test_client Response

abbrev first_page : Page (List String → Option Response)
first_page = record { user_id = "u1"; selected_currency = ""; cache = λ key. none }

-- The cart is shown, an item is added, and the currency is changed.
abbrev visit : List CartAction
visit = render ∷ add_item two_kits ∷ select_currency "EUR" ∷ []

abbrev kit_line : ProductCartItem
kit_line = record { product_id = "L9"; quantity = pos 4; product = lens_kit_in_euros }

abbrev merged_line : Response
merged_line = record {
  status_code = 200;
  body = some (product_cart (record { user_id = "u1"; items = kit_line ∷ [] }));
}

visit-AreWhole : AreWhole client shop visit (first_page, one_cart)
unfolding acts run handle request_of all price_product
visit-AreWhole = (tt, (tt, (tt, tt)))

answered_now :
    answered client shop
      (acts client shop visit (first_page, one_cart))
      (acts client shop visit (first_page, one_cart)).0.selected_currency
    ≡ (fulfilled merged_line, (acts client shop visit (first_page, one_cart)).1)
unfolding acts run handle request_of all price_product opentelemetry_demo_mb3r.Prelude.◌+ℤ◌
answered_now = refl

shown-acts_example :
    shown client (act client shop render (acts client shop visit (first_page, one_cart))).0
    ≡ record { user_id = "u1"; items = kit_line ∷ [] }
shown-acts_example =
    shown-acts client shop visit (first_page, one_cart) merged_line shop-IsReadOnly
      (λ code res h. absurd (cc)) visit-AreWhole answered_now
