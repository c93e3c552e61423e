-- ===== src/Ads.antt =====
-- The advertisements of a page: src/frontend/providers/Ad.provider.tsx, and what src/frontend/pages/
-- cart/index.tsx, src/frontend/pages/product/[productId]/index.tsx and src/frontend/pages/cart/
-- checkout/[orderId]/index.tsx hand to it.
pub mod Shown
use mathlib.Core.Option
use opentelemetry_demo_mb3r.Prelude.{
  String, Bool, true, false, Option, none, some, List, [], ◌∷◌, ◌++◌, map, ◌==◌, if◌then◌else◌,
}
use opentelemetry_demo_mb3r.Proto.{Ad, Product}
use opentelemetry_demo_mb3r.Calls.{Services}
use opentelemetry_demo_mb3r.Promise.{Outcome, fulfilled, failed, run}
use opentelemetry_demo_mb3r.Http.{ProductCartItem, ProductCheckoutItem, Response, Payload, ads}
use opentelemetry_demo_mb3r.Api.Routes.{handle}
use opentelemetry_demo_mb3r.Client.{ApiCall, request_of}

abbrev pub contains : String → List String → Bool
contains x [] = false
contains x (y ∷ ys) = if x == y then true else contains x ys

abbrev pub add_unseen : List String → List String → List String
add_unseen seen [] = []
add_unseen seen (x ∷ xs) = elim (contains x seen) [
  | true ↦ add_unseen seen xs
  | false ↦ x ∷ add_unseen (x ∷ seen) xs
]

-- `[...new Set(list)]`.
unfoldable pub unique : List String → List String
unique xs = add_unseen [] xs

abbrev pub concat : List (List String) → List String
concat [] = []
concat (xs ∷ xss) = xs ++ concat xss

-- `items.flatMap(({ product }) => product.categories)`.
abbrev pub categories_of : List Product → List String
categories_of items = concat (map (λ p. p.categories) items)

-- The context keys and the product identifiers of the cart page.
abbrev pub cart_context_keys : List ProductCartItem → List String
cart_context_keys items = unique (categories_of (map (λ i. i.product) items))

abbrev pub cart_product_ids : List ProductCartItem → List String
cart_product_ids items = map (λ i. i.product_id) items

-- Of the order page.
abbrev pub order_context_keys : List ProductCheckoutItem → List String
order_context_keys items = unique (categories_of (map (λ l. l.item.product) items))

abbrev pub order_product_ids : List ProductCheckoutItem → List String
order_product_ids items = map (λ l. l.item.product_id) items

-- Of the page of a product, which is `none` before it has been fetched.
abbrev pub product_context_keys : Option Product → List String
product_context_keys none = unique []
product_context_keys (some p) = unique p.categories

abbrev pub product_page_ids : String → List ProductCartItem → List String
product_page_ids product_id items = product_id ∷ map (λ i. i.product_id) items

abbrev pub ads_in : Option Payload → List Ad
ads_in (some (ads list)) = list
ads_in _ = []

abbrev pub with_ads : {S : Type 0} → Outcome Response × S → Outcome (List Ad) × S
with_ads (failed e, s) = (failed e, s)
with_ads (fulfilled res, s) = (fulfilled (ads_in res.body), s)

-- The `queryFn` of the advertisements.
unfoldable pub query_ads :
    {S : Type 0} → Services S → String → List String → S → Outcome (List Ad) × S
query_ads services user_id [] s = (fulfilled [], s)
query_ads services user_id (key ∷ keys) s =
    with_ads (run services (handle (request_of user_id (ApiCall.list_ads (key ∷ keys)))) s)

-- The call of the `queryFn` of the recommendations.
abbrev pub recommendations_call : List String → String → ApiCall
recommendations_call product_ids selected_currency =
    ApiCall.list_recommendations product_ids selected_currency
