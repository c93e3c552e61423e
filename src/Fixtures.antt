-- ===== src/Fixtures.antt =====
-- Data for the tests: a small shop as the services, over a state that holds the carts.
use opentelemetry_demo_mb3r.Prelude.{
  pos, ◌+ℤ◌, String, ◌≡◌, ◌≢◌, refl, true, false, none, some, List, [], ◌∷◌, inr, ◌==◌, eq_iff,
  if◌then◌else◌, arith,
}
use opentelemetry_demo_mb3r.Proto.{Cart, CartItem, Money, Product, Address, OrderItem, Ad}
use opentelemetry_demo_mb3r.Calls.{
  Call, Callback, Failure, service_error, QuoteItem, HttpReply, response, error, Services,
}
use opentelemetry_demo_mb3r.Http.{Method, undefined, malformed, Query, Request}
use opentelemetry_demo_mb3r.Catalog.Prices.{IsForeign, IsShown, IsSold}
use opentelemetry_demo_mb3r.Api.Cart.Visits.{CartContract}
use opentelemetry_demo_mb3r.Promise.Schedule.{IsReadOnly, IsQuery}

abbrev pub Carts : Type 0
Carts = String → List CartItem

abbrev pub ten_dollars : Money
ten_dollars = record { currency_code = "USD"; units = pos 10; nanos = pos 500000000 }

abbrev pub nine_euros : Money
nine_euros = record { currency_code = "EUR"; units = pos 9; nanos = pos 0 }

abbrev pub lens_kit : Product
lens_kit = record {
  id = "L9";
  name = "Lens kit";
  description = "";
  picture = "lens.jpg";
  price_usd = some ten_dollars;
  categories = "lenses" ∷ [];
}

abbrev pub lens_kit_in_euros : Product
lens_kit_in_euros = record lens_kit { price_usd = some nine_euros }

abbrev pub two_kits : CartItem
two_kits = record { product_id = "L9"; quantity = pos 2 }

abbrev pub not_found : Failure
not_found = service_error 5 "no such product"

abbrev pub no_item : Failure
no_item = service_error 3 "no item"

abbrev pub kits_line : OrderItem
kits_line = record { item = some two_kits; cost = some ten_dollars }

-- An item is added to the quantity of the one with its product, or as a new one.
abbrev pub with_item : CartItem → List CartItem → List CartItem
with_item item [] = item ∷ []
with_item item (there ∷ items) =
    let more = record there { quantity = there.quantity +ℤ item.quantity } in
    let rest = with_item item items in
    if there.product_id == item.product_id then more ∷ items else there ∷ rest

abbrev pub put_in : String → CartItem → Carts → Carts
put_in u item s v = if v == u then with_item item (s v) else s v

-- A cart without items names no user.
abbrev pub cart_held : String → List CartItem → Cart
cart_held u [] = record { user_id = ""; items = [] }
cart_held u (item ∷ items) = record { user_id = u; items = item ∷ items }

abbrev pub items_held : (u : String) (items : List CartItem) → (cart_held u items).items ≡ items
items_held u [] = refl
items_held u (item ∷ items) = refl

abbrev pub clear : String → Carts → Carts
clear u s v = if v == u then [] else s v

abbrev pub find : String → Callback Product
find id = if id == "L9" then response lens_kit else error not_found

-- The quote is refused to an empty list of items.
abbrev pub quoted : List QuoteItem → Callback HttpReply
quoted [] = response (record {
  ok = false;
  status_line = "HTTP error: 400 Bad Request";
  text = "no items";
  json_data = none;
})
quoted (_ ∷ _) = response (record {
  ok = true;
  status_line = "HTTP error: 200 OK";
  text = "";
  json_data = some (some (record { currency_code = "USD"; units = pos 8; nanos = pos 0 }));
})

abbrev pub lens_ad : Ad
lens_ad = record { redirect_url = "/product/L9"; text = "Lens kit for sale." }

abbrev pub shop : Services Carts
shop (Call.get_cart u) s = (response (cart_held u (s u)), s)
shop (Call.add_item u none) s = (error no_item, s)
shop (Call.add_item u (some item)) s = (response tt, put_in u item s)
shop (Call.empty_cart u) s = (response tt, clear u s)
shop Call.list_products s = (response (lens_kit ∷ []), s)
shop (Call.get_product id) s = (find id, s)
shop (Call.convert m code) s = (response nine_euros, s)
shop Call.get_supported_currencies s = (response (some ("USD" ∷ "EUR" ∷ [])), s)
shop (Call.place_order order) s = if order.user_id == "" then (error no_item, s) else (
  response (record {
    order = some (record {
      order_id = "O1";
      shipping_tracking_id = "S1";
      shipping_cost = some nine_euros;
      shipping_address = order.address;
      items = kits_line ∷ [];
    });
  }),
  clear order.user_id s,
)
shop (Call.get_ads keys) s = (response (lens_ad ∷ []), s)
shop (Call.list_recommendations u ids) s = (response ("L9" ∷ "L9" ∷ []), s)
shop (Call.get_product_reviews id) s = (response [], s)
shop (Call.get_average_product_review_score id) s = (response "4.5", s)
shop (Call.ask_product_ai_assistant id question) s = (response "yes", s)
shop (Call.get_quote request) s = (quoted request.items, s)

abbrev pub no_carts : Carts
no_carts _ = []

-- The cart of `u1` holds two lens kits.
abbrev pub one_cart : Carts
one_cart v = if v == "u1" then two_kits ∷ [] else []

abbrev pub home : Address
home = record {
  street_address = "1 Main St";
  city = "Springfield";
  state = "CA";
  country = "US";
  zip_code = "94043";
}

-- The query of the visitor `u1`, who sees euros.
abbrev pub query_u1 : Query
query_u1 = record {
  session_id = some "u1";
  currency_code = some "EUR";
  product_id = some "L9";
  product_ids = undefined;
  context_keys = undefined;
  item_list = malformed;
  address = malformed;
}

abbrev pub request_u1 : {B : Type 0} → Method → B → Request B
request_u1 m body = record { method = m; query = query_u1; body = body }

pub same : (u : String) → (u == u) ≡ true
same u = (eq_iff u u).1 refl

pub different : (v u : String) → v ≢ u → (v == u) ≡ false
different v u h = ground (arith, eq_iff v u)

abbrev pub shop_contract : CartContract shop
shop_contract = record {
  put = with_item;
  held = λ s u. cart_held u (s u);
  reads = λ s u. refl;
  adds = λ s u item. (
    put_in u item s,
    refl,
    rw (same u, items_held u (s u), items_held u (with_item item (s u))) refl,
    λ v h. rw (different v u h),
  );
  empties = λ s u. (clear u s, refl, rw (same u), λ v h. rw (different v u h));
}

keeps_carts : (c : Call) → IsQuery c → (s : Carts) → (shop c s).1 ≡ s
keeps_carts (Call.add_item _ none) q s = refl
keeps_carts (Call.add_item _ (some _)) q s = absurd q
keeps_carts (Call.empty_cart _) q s = absurd q
keeps_carts (Call.place_order _) q s = absurd q
keeps_carts _ q s = refl

pub shop-IsReadOnly : IsReadOnly shop
shop-IsReadOnly = record { keeps = keeps_carts }

is_foreign : IsForeign "EUR"
is_foreign = (λ h. ground (arith, eq_iff "EUR" ""), λ h. ground (arith, eq_iff "EUR" "USD"))

pub kit-IsShown : (s : Carts) → IsShown shop s "EUR" lens_kit lens_kit_in_euros
kit-IsShown s = inr (is_foreign, (nine_euros, refl, refl))

pub kit-IsSold : (s : Carts) → IsSold shop s "EUR" "L9" lens_kit_in_euros
kit-IsSold s = (lens_kit, refl, kit-IsShown s)
