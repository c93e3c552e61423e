-- ===== src/Ads/Shown.antt =====
-- What the ad service is asked for, and what the pages show.
use opentelemetry_demo_mb3r.Prelude.{
  String, ◌≡◌, refl, ap, ◌∙◌, Bool, true, false, List, [], ◌∷◌, ◌++◌, map, All, ◌==◌, eq_iff,
  if◌then◌else◌, Bool-cases, inl, inr,
}
use opentelemetry_demo_mb3r.Proto.{Ad}
use opentelemetry_demo_mb3r.Calls.{Call, response, Services}
use opentelemetry_demo_mb3r.Promise.{fulfilled, Outcome}
use opentelemetry_demo_mb3r.Http.{ProductCartItem}
use opentelemetry_demo_mb3r.Client.Keys.{HasNoComma, run-list_ads}
use opentelemetry_demo_mb3r.Ads.{
  contains, add_unseen, unique, categories_of, cart_context_keys, query_ads, with_ads,
}

nothing : (b : Bool) → false ≡ (if b then false else false)
nothing true = refl
nothing false = refl

contains-add_unseen :
    (x : String) (seen xs : List String)
    → contains x (add_unseen seen xs) ≡ (if contains x seen then false else contains x xs)
contains-add_unseen x seen [] = nothing (contains x seen)
contains-add_unseen x seen (y ∷ ys) = elim (Bool-cases (contains y seen)) [
  | inl old ↦ elim (Bool-cases (x == y)) [
    | inl e ↦
        let there = ap (λ z. contains z seen) ((eq_iff x y).0 e) ∙ old in
        rw (add_unseen, old, contains-add_unseen x seen ys, there) refl
    | inr e ↦ rw (add_unseen, old, e) (contains-add_unseen x seen ys)
  ]
  | inr new ↦ elim (Bool-cases (x == y)) [
    | inl e ↦
        let fresh = ap (λ z. contains z seen) ((eq_iff x y).0 e) ∙ new in
        rw (add_unseen, new, e, fresh) refl
    | inr e ↦ rw (add_unseen, new, contains-add_unseen x (y ∷ seen) ys, e) refl
  ]
]

-- No element stands in the list twice.
abbrev pub IsDistinct : List String → Type 0
IsDistinct [] = Unit
IsDistinct (x ∷ xs) = (contains x xs ≡ false) × IsDistinct xs

add_unseen-IsDistinct : (seen xs : List String) → IsDistinct (add_unseen seen xs)
add_unseen-IsDistinct seen [] = tt
add_unseen-IsDistinct seen (x ∷ xs) = elim (Bool-cases (contains x seen)) [
  | inl old ↦ rw (add_unseen, old) (add_unseen-IsDistinct seen xs)
  | inr new ↦
      rw (add_unseen, new)
        (
          contains-add_unseen x (x ∷ seen) xs ∙ rw ((eq_iff x x).1 refl) refl,
          add_unseen-IsDistinct (x ∷ seen) xs,
        )
]

contains-append :
    (x : String) (xs ys : List String)
    → contains x (xs ++ ys) ≡ (if contains x xs then true else contains x ys)
contains-append x [] ys = refl
contains-append x (z ∷ xs) ys = elim (Bool-cases (x == z)) [
  | inl e ↦ rw e refl
  | inr e ↦ rw e (contains-append x xs ys)
]

-- Some item of the cart has the category.
abbrev pub has_category : String → List ProductCartItem → Bool
has_category x [] = false
has_category x (i ∷ items) = if contains x i.product.categories then true else has_category x items

contains-categories_of :
    (x : String) (items : List ProductCartItem)
    → contains x (categories_of (map (λ i. i.product) items)) ≡ has_category x items
contains-categories_of x [] = refl
contains-categories_of x (i ∷ items) =
    contains-append x i.product.categories (categories_of (map (λ j. j.product) items))
    ∙ ap (λ (b : Bool). if contains x i.product.categories then true else b)
        (contains-categories_of x items)

-- The context keys of the cart page are the categories of the products in the cart, each once.
pub cart_context_keys_lem :
    (items : List ProductCartItem)
    → IsDistinct (cart_context_keys items)
      × ((x : String) → contains x (cart_context_keys items) ≡ has_category x items)
unfolding unique
cart_context_keys_lem items = (
  add_unseen-IsDistinct [] (categories_of (map (λ i. i.product) items)),
  λ x.
      contains-add_unseen x [] (categories_of (map (λ i. i.product) items))
      ∙ contains-categories_of x items,
)

-- No ads and no call for no keys, and the service's answer otherwise.
abbrev pub Asked : {S : Type 0} → Outcome (List Ad) × S → List Ad → S → S → List String → Type 0
Asked r shown s s' [] = r ≡ (fulfilled [], s)
Asked r shown s s' (key ∷ keys) = r ≡ (fulfilled shown, s')

query_ads_lem :
    {S : Type 0} (services : Services S) (s s' : S) (user_id : String) (keys : List String)
    (shown : List Ad)
    → All HasNoComma keys
    → services (Call.get_ads keys) s ≡ (response shown, s')
    → Asked (query_ads services user_id keys s) shown s s' keys
unfolding query_ads
query_ads_lem services s s' user_id [] shown plain answered = refl
query_ads_lem services s s' user_id (key ∷ keys) shown plain answered =
    ap with_ads (run-list_ads services s s' user_id key keys shown plain answered)

-- The ad service is asked for the categories of the products in the cart, each once: if no category
-- has a comma and the service answers, then the cart page shows its ads; it shows none, and asks
-- nothing, if there is no category.
pub cart_ads_lem :
    {S : Type 0} (services : Services S) (s s' : S) (user_id : String)
    (items : List ProductCartItem) (shown : List Ad)
    → All HasNoComma (cart_context_keys items)
    → services (Call.get_ads (cart_context_keys items)) s ≡ (response shown, s')
    → Asked
        (query_ads services user_id (cart_context_keys items) s)
        shown
        s
        s'
        (cart_context_keys items)
      × IsDistinct (cart_context_keys items)
      × ((x : String) → contains x (cart_context_keys items) ≡ has_category x items)
cart_ads_lem services s s' user_id items shown plain answered =
    let (once, members) = cart_context_keys_lem items in
    (
      query_ads_lem services s s' user_id (cart_context_keys items) shown plain answered,
      once,
      members,
    )
