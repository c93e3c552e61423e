-- ===== src/Tests/Client.antt =====
-- The client's requests and its session, at concrete inputs.
use opentelemetry_demo_mb3r.Prelude.{
  List, ℤ, pos, String, ◌≡◌, refl, true, none, some, [], ◌∷◌, All,
}
use opentelemetry_demo_mb3r.Calls.{Call}
use opentelemetry_demo_mb3r.Promise.{fulfilled, outcome, run, first_call}
use opentelemetry_demo_mb3r.Http.{Response, ProductCartItem, empty, product, is_ended}
use opentelemetry_demo_mb3r.Catalog.{price_product}
use opentelemetry_demo_mb3r.Api.Routes.{handle}
use opentelemetry_demo_mb3r.Client.{ApiCall, request_of}
use opentelemetry_demo_mb3r.Client.Delivery.{request_of_answered}
use opentelemetry_demo_mb3r.Client.Keys.{HasNoComma}
use opentelemetry_demo_mb3r.Ads.{contains, unique, query_ads}
use opentelemetry_demo_mb3r.Ads.Shown.{IsDistinct, has_category, cart_ads_lem}
use opentelemetry_demo_mb3r.Session.{Session, get_session}
use opentelemetry_demo_mb3r.Session.Visits.{load, select, visits, get_session-visits}
use opentelemetry_demo_mb3r.Form.{Field, initial_form, fill, order_of}
use opentelemetry_demo_mb3r.Form.Changes.{placed_form}
use opentelemetry_demo_mb3r.Fixtures.{lens_ad, lens_kit, shop, one_cart}

abbrev emptied : Response
emptied = record { status_code = 204; body = some empty }

abbrev lens_page : Response
lens_page = record { status_code = 200; body = some (product lens_kit) }

lens_settled :
    outcome shop (handle (request_of "u1" (ApiCall.get_product "L9" "USD"))) one_cart
    ≡ fulfilled lens_page
unfolding handle request_of run price_product
lens_settled = refl

request_of_answered_example : (lens_page.status_code ≡ 200) × (is_ended lens_page ≡ true)
request_of_answered_example =
    request_of_answered shop "u1" (ApiCall.get_product "L9" "USD") one_cart lens_page refl
      lens_settled

plain_keys : All HasNoComma ("lenses" ∷ "books" ∷ [])
plain_keys = (
  (refl, (refl, (refl, (refl, (refl, (refl, tt)))))),
  ((refl, (refl, (refl, (refl, (refl, tt))))), tt),
)

abbrev two_lines : List ProductCartItem
two_lines =
    record { product_id = "L9"; quantity = pos 2; product = lens_kit }
    ∷ record {
      product_id = "B1";
      quantity = pos 1;
      product = record lens_kit { categories = "books" ∷ "lenses" ∷ [] };
    }
    ∷ []

cart_ads_lem_example :
    (query_ads shop "u1" ("lenses" ∷ "books" ∷ []) one_cart ≡ (fulfilled (lens_ad ∷ []), one_cart))
    × IsDistinct ("lenses" ∷ "books" ∷ [])
    × ((x : String) → contains x ("lenses" ∷ "books" ∷ []) ≡ has_category x two_lines)
unfolding unique
cart_ads_lem_example =
    cart_ads_lem shop one_cart one_cart "u1" two_lines (lens_ad ∷ []) plain_keys refl

abbrev of_user : String → Session
of_user u = record { user_id = u; currency_code = "USD" }

get_session-visits_example :
    ◌≡◌ {A = Session}
      (get_session
        (of_user "u3")
        true
        (visits (load (of_user "u1") ∷ select (of_user "u2") "EUR" ∷ []) none)).0
      (record { user_id = "u1"; currency_code = "EUR" })
get_session-visits_example =
    get_session-visits (of_user "u1") (of_user "u3") (select (of_user "u2") "EUR" ∷ [])

-- The visitor changes the city twice, and the year of the card.
abbrev three_changes : List (Field × String)
three_changes =
    (Field.city, "Springfield")
    ∷ (Field.credit_card_expiration_year, "2031")
    ∷ (Field.city, "Salem")
    ∷ []

abbrev year_2031 : String → ℤ
year_2031 _ = pos 2031

placed_form_example :
    first_call (
      handle (
        request_of "u1" (
          ApiCall.place_order "EUR"
            (order_of year_2031 "u1" "EUR" (fill three_changes initial_form)))))
    ≡ some (
        Call.place_order (record {
          user_id = "u1";
          user_currency = "EUR";
          email = "someone@example.com";
          address = some (record {
            street_address = "1600 Amphitheatre Parkway";
            city = "Salem";
            state = "CA";
            country = "United States";
            zip_code = "94043";
          });
          credit_card = some (record {
            credit_card_number = "4432-8015-6152-0454";
            credit_card_cvv = pos 672;
            credit_card_expiration_year = pos 2031;
            credit_card_expiration_month = pos 1;
          });
        }))
placed_form_example = placed_form year_2031 "u1" "EUR" three_changes
