-- ===== src/Tests/Catalog.antt =====
-- The catalog, the recommendations and `Promise.all`, over a small shop.
use opentelemetry_demo_mb3r.Prelude.{
  ℕ, zero, suc, length, ◌<◌, arith, ◌≤◌, pos, All, map, String, ◌≡◌, refl, inl, inr, some, List, [],
  ◌∷◌, Forall₂,
}
use opentelemetry_demo_mb3r.Proto.{CartItem}
use opentelemetry_demo_mb3r.Calls.{Call, Failure}
use opentelemetry_demo_mb3r.Promise.{resolved, fulfilled, failed, first_call, run, outcome}
use opentelemetry_demo_mb3r.Promise.All.{all}
use opentelemetry_demo_mb3r.Promise.Schedule.{play}
use opentelemetry_demo_mb3r.Promise.Settled.{turns}
use opentelemetry_demo_mb3r.Http.{get, text, products, ProductCartItem, Request}
use opentelemetry_demo_mb3r.Api.Cart.{load_cart_item}
use opentelemetry_demo_mb3r.Api.Cart.Lookups.{play-load_cart_item_enough}
use opentelemetry_demo_mb3r.Api.Cart.InTime.{
  found, IsLine, lookups, lookups_fulfilled, lookups_failed,
}
use opentelemetry_demo_mb3r.Promise.InTime.{IsOneOf, play_all}
use opentelemetry_demo_mb3r.Catalog
use opentelemetry_demo_mb3r.Catalog.{price_product, get_product_price, needs_conversion}
use opentelemetry_demo_mb3r.Catalog.Prices.{run-get_product, run-list_products}
use opentelemetry_demo_mb3r.Fixtures.{
  lens_kit, lens_kit_in_euros, two_kits, shop, one_cart, query_u1, request_u1, kit-IsShown,
  kit-IsSold, shop-IsReadOnly, not_found,
}
use opentelemetry_demo_mb3r.Api.Recommendations.{recommendations_handler}
use opentelemetry_demo_mb3r.Api.Recommendations.Shown.{
  run-recommendations, IsOneCharacter, concat_texts,
}
use opentelemetry_demo_mb3r.Api.Routes.{handle}
use opentelemetry_demo_mb3r.Client.{ApiCall, request_of, join_commas}
use opentelemetry_demo_mb3r.Client.Keys.{list_recommendations_asked}

run-get_product_example :
    run shop (Catalog.get_product "L9" "EUR") one_cart ≡ (fulfilled lens_kit_in_euros, one_cart)
run-get_product_example =
    run-get_product shop one_cart "EUR" "L9" lens_kit_in_euros (kit-IsSold one_cart)

run-list_products_example :
    run shop (Catalog.list_products "EUR") one_cart ≡ (fulfilled (lens_kit_in_euros ∷ []), one_cart)
run-list_products_example =
    run-list_products shop one_cart "EUR" {kept = lens_kit ∷ []} {shown = lens_kit_in_euros ∷ []}
      refl (Forall₂.cons (kit-IsShown one_cart) Forall₂.nil)

run-recommendations_example :
    (run shop (recommendations_handler (request_u1 get tt)) one_cart ≡ (
      fulfilled (record {
        status_code = 200;
        body = some (products (lens_kit_in_euros ∷ lens_kit_in_euros ∷ []));
      }),
      one_cart,
    ))
    × (2 ≤ 4)
run-recommendations_example =
    run-recommendations shop one_cart (request_u1 get tt) ("L9" ∷ "L9" ∷ [])
      (lens_kit_in_euros ∷ lens_kit_in_euros ∷ []) refl refl
      (Forall₂.cons (kit-IsSold one_cart) (Forall₂.cons (kit-IsSold one_cart) Forall₂.nil))

abbrev joined_request : Request (Unit {0})
joined_request = record {
  method = get;
  query = record query_u1 { product_ids = text "L9,X0" };
  body = tt;
}

list_recommendations_asked_example :
    (asked : List String) × (first_call
        (handle (request_of "u1" (ApiCall.list_recommendations ("L9" ∷ "X0" ∷ []) "USD")))
      ≡ some (Call.list_recommendations "u1" asked))
    × All IsOneCharacter asked
    × (concat_texts asked ≡ "L9,X0")
unfolding join_commas
list_recommendations_asked_example = list_recommendations_asked "u1" "USD" ("L9" ∷ "X0" ∷ [])

-- The first lookup is answered twice, the second twice in between.
abbrev interleaved : List ℕ
interleaved = 0 ∷ 1 ∷ 1 ∷ 0 ∷ []

played :
    (play shop interleaved (map (λ id. Catalog.get_product id "EUR") ("L9" ∷ "L9" ∷ [])) one_cart).0
    ≡ map resolved (lens_kit_in_euros ∷ lens_kit_in_euros ∷ [])
unfolding play Catalog.get_product
played = refl

abbrev kit_line : ProductCartItem
kit_line = record { product_id = "L9"; quantity = pos 2; product = lens_kit_in_euros }

played_cart :
    (play shop interleaved (map (load_cart_item "EUR") (two_kits ∷ two_kits ∷ [])) one_cart).0
    ≡ map resolved (kit_line ∷ kit_line ∷ [])
unfolding play load_cart_item
played_cart = refl

lookups_done :
    lookups shop "EUR" one_cart interleaved (two_kits ∷ two_kits ∷ [])
    ≡ some (fulfilled (kit_line ∷ kit_line ∷ []))
unfolding play_all load_cart_item price_product
lookups_done = refl

lookups_fulfilled_example :
    Forall₂ (IsLine shop "EUR" one_cart) (two_kits ∷ two_kits ∷ []) (kit_line ∷ kit_line ∷ [])
lookups_fulfilled_example =
    lookups_fulfilled shop "EUR" one_cart interleaved (two_kits ∷ two_kits ∷ [])
      (kit_line ∷ kit_line ∷ []) shop-IsReadOnly lookups_done

-- An item whose product the catalog does not have, behind one that it has.
abbrev lost : CartItem
lost = record { product_id = "X0"; quantity = pos 1 }

lost_product : found shop "EUR" one_cart lost ≡ failed not_found
unfolding Catalog.get_product opentelemetry_demo_mb3r.Promise.run
lost_product = refl

all_loaded :
    outcome shop (all (map (load_cart_item "EUR") (two_kits ∷ two_kits ∷ []))) one_cart
    ≡ fulfilled (kit_line ∷ kit_line ∷ [])
unfolding run all load_cart_item
all_loaded = refl

twice : (i : ℕ) → i < length (two_kits ∷ two_kits ∷ []) → 2 ≤ turns interleaved i
unfolding turns
twice zero small = omega arith
twice (suc zero) small = omega arith
twice (suc (suc i)) small = absurd (omega arith)

lookups_failed_example :
    (e' : Failure) × (other : CartItem) × (lookups shop "EUR" one_cart interleaved
        (two_kits ∷ lost ∷ [])
      ≡ some (failed e'))
    × (IsOneOf other (two_kits ∷ lost ∷ []))
    × (found shop "EUR" one_cart other ≡ failed e')
lookups_failed_example =
    lookups_failed shop "EUR" one_cart interleaved (two_kits ∷ lost ∷ []) lost not_found
      shop-IsReadOnly twice (inr (inl refl)) lost_product

play-load_cart_item_enough_example :
    (play shop interleaved (map (load_cart_item "EUR") (two_kits ∷ two_kits ∷ [])) one_cart).0
    ≡ map resolved (kit_line ∷ kit_line ∷ [])
play-load_cart_item_enough_example =
    play-load_cart_item_enough shop interleaved (two_kits ∷ two_kits ∷ []) "EUR" one_cart
      (kit_line ∷ kit_line ∷ []) shop-IsReadOnly twice all_loaded
