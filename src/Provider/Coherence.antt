-- ===== src/Provider/Coherence.antt =====
-- The carts in the cache beside those of the server.
use opentelemetry_demo_mb3r.Prelude.{
  String, ◌≡◌, ◌≢◌, refl, sym, ap, ◌∙◌, subst, Option, none, some, List, [], ◌∷◌, map, All,
  Bool-cases, inl, inr, ◌⊎◌, ◌==◌, eq_iff, arith,
}
use opentelemetry_demo_mb3r.Calls.{Services}
use opentelemetry_demo_mb3r.Promise.{
  Promise, resolved, rejected, waiting, Outcome, fulfilled, failed, settle, settle_callback,
  of_outcome,
}
use opentelemetry_demo_mb3r.Promise.All.{all, settle_each, collect}
use opentelemetry_demo_mb3r.Promise.Schedule.{IsReadOnly, Queries, run-Queries}
use opentelemetry_demo_mb3r.Catalog.Reads.{Queries-bind, Queries-settle_callback, map-Queries}
use opentelemetry_demo_mb3r.Http.{Response}
use opentelemetry_demo_mb3r.Api.Cart.{load_cart_item}
use opentelemetry_demo_mb3r.Api.Cart.Lookups.{load_cart_item-Queries}
use opentelemetry_demo_mb3r.Api.Routes.{handle}
use opentelemetry_demo_mb3r.Client.{ApiCall, request_of}
use opentelemetry_demo_mb3r.Provider.{
  QueryClient, cart_key, CartAction, select_currency, render, add_item, empty_cart, place_order,
  Page, ask, fetched, query_cart, query_with, mutated, mutation_of, act, acts, shown, cart_of,
  cart_in,
}

settle-Queries {ℓ} : {A : Type ℓ} (p : Promise A) → Queries p → Queries (settle p)
settle-Queries (resolved a) q = tt
settle-Queries (rejected e) q = tt
settle-Queries (waiting c k) q = (q.0, λ r. settle-Queries (k r) (q.1 r))

settle_each-Queries {ℓ} :
    {A : Type ℓ} (ps : List (Promise A)) → All Queries ps → Queries (settle_each ps)
settle_each-Queries [] q = tt
settle_each-Queries (p ∷ ps) q =
    Queries-bind (settle p) _ (settle-Queries p q.0)
      (λ o. Queries-bind (settle_each ps) _ (settle_each-Queries ps q.1) (λ os. tt))

of_outcome-Queries {ℓ} : {A : Type ℓ} (o : Outcome A) → Queries (of_outcome o)
of_outcome-Queries (fulfilled a) = tt
of_outcome-Queries (failed e) = tt

all-Queries {ℓ} : {A : Type ℓ} (ps : List (Promise A)) → All Queries ps → Queries (all ps)
unfolding all
all-Queries ps q =
    Queries-bind (settle_each ps) _ (settle_each-Queries ps q)
      (λ os. of_outcome-Queries (collect os))

get_cart-Queries :
    (user_id code : String) → Queries (handle (request_of user_id (ApiCall.get_cart code)))
unfolding handle request_of
get_cart-Queries user_id code = (
  tt,
  λ r. Queries-bind (settle_callback r) _ (Queries-settle_callback r) (λ found.
      Queries-bind (all (map (load_cart_item code) found.items)) _
        (all-Queries (map (load_cart_item code) found.items)
          (map-Queries (load_cart_item code) found.items (load_cart_item-Queries code)))
        (λ shown. tt)),
)

same_code : (a b : String) → (a ≡ b) ⊎ (a ≢ b)
same_code a b = elim (Bool-cases (a == b)) [
  | inl e ↦ inl ((eq_iff a b).0 e)
  | inr e ↦ inr (λ h. ground (arith, eq_iff a b))
]

cart_key-ne : (a b : String) → a ≢ b → cart_key a ≢ cart_key b
cart_key-ne a b h e = h (cc)

injective : {a b : Response} → some a ≡ some b → a ≡ b
injective h = cc

response_injective :
    {S : Type 0} {a b : Response} {s : S}
    → ◌≡◌ {A = Outcome Response × S} (fulfilled a, s) (fulfilled b, s)
    → a ≡ b
response_injective h = cc

-- A mutation was carried out, or it failed and left the services as they were.
abbrev pub IsWhole : {S : Type 0} → Outcome Response × S → S → Type 0
IsWhole (fulfilled res, s') s = Unit
IsWhole (failed e, s') s = s' ≡ s

module _ {S : Type 0} (client : QueryClient Response) (services : Services S) where
  -- What the server answers to the page, in a currency.
  abbrev pub answered : Page client.Cache × S → String → Outcome Response × S
  answered (page, s) code = ask client services (ApiCall.get_cart code) (page, s)

  -- Every cart in the cache that was not invalidated is the one that the server answers with now.
  abbrev pub IsCoherent : Page client.Cache × S → Type 0
  IsCoherent (page, s) =
      (code : String) (res : Response)
      → client.current page.cache (cart_key code) ≡ some res
      → answered (page, s) code ≡ (fulfilled res, s)

  abbrev pub IsWholeCall : Option ApiCall → Page client.Cache × S → Type 0
  IsWholeCall none x = Unit
  IsWholeCall (some call) x = IsWhole (ask client services call x) x.1

  -- No mutation of the actions fails half-way.
  abbrev pub AreWhole : List CartAction → Page client.Cache × S → Type 0
  AreWhole [] x = Unit
  AreWhole (a ∷ rest) x =
      IsWholeCall (mutation_of client services x.0 a) x × AreWhole rest (act client services a x)

  mutated-IsCoherent :
      (page : Page client.Cache) (s : S) (x : Outcome Response × S)
      → IsWhole x s
      → IsCoherent (page, s)
      → IsCoherent (mutated client services page x)
  mutated-IsCoherent page s (fulfilled res', s') whole h = λ code res e.
      let gone = client.current_invalidate page.cache ("cart" ∷ []) (code ∷ []) in absurd (cc)
  mutated-IsCoherent page s (failed e, s') whole h = subst (λ t. IsCoherent (page, t)) (sym whole) h

  abbrev stored : Page client.Cache → Response → Page client.Cache
  stored page res = record page {
    cache = client.store (cart_key page.selected_currency) res page.cache;
  }

  stored-IsCoherent :
      (page : Page client.Cache) (s : S) (res : Response)
      → answered (page, s) page.selected_currency ≡ (fulfilled res, s)
      → IsCoherent (page, s)
      → IsCoherent (stored page res, s)
  stored-IsCoherent page s res e h = λ code found k. elim (same_code code page.selected_currency) [
    | inl same ↦
        let there = client.current_store page.cache (cart_key page.selected_currency) res in
        let held = ap (λ c. client.current (stored page res).cache (cart_key c)) same in
        let one : res ≡ found = injective (sym there ∙ sym held ∙ k) in
        ap (answered (page, s)) same ∙ e ∙ ap (λ r. (fulfilled r, s)) one
    | inr ne ↦ h code found (
        sym (
          client.current_other page.cache (cart_key page.selected_currency) (cart_key code) res
            (cart_key-ne code page.selected_currency ne))
        ∙ k)
  ]

  fetched-IsCoherent :
      (page : Page client.Cache) (s : S) (x : Outcome Response × S)
      → x.1 ≡ s
      → answered (page, s) page.selected_currency ≡ x
      → IsCoherent (page, s)
      → IsCoherent (fetched client services page x)
  fetched-IsCoherent page s (fulfilled res', s') same e h =
      subst (λ t. IsCoherent (stored page res', t)) (sym same)
        (stored-IsCoherent page s res' (e ∙ ap (λ t. (fulfilled res', t)) same) h)
  fetched-IsCoherent page s (failed e', s') same e h =
      subst (λ t. IsCoherent (page, t)) (sym same) h

  module _ (readonly : IsReadOnly services) where
    query_with-IsCoherent :
        (o : Option Response) (page : Page client.Cache) (s : S)
        → IsCoherent (page, s)
        → IsCoherent (query_with client services o (page, s))
    query_with-IsCoherent (some res) page s h = h
    query_with-IsCoherent none page s h =
        fetched-IsCoherent page s (answered (page, s) page.selected_currency)
          (run-Queries services readonly
            (handle (request_of page.user_id (ApiCall.get_cart page.selected_currency))) s
            (get_cart-Queries page.user_id page.selected_currency))
          refl h

    act-IsCoherent :
        (a : CartAction) (page : Page client.Cache) (s : S)
        → IsWholeCall (mutation_of client services page a) (page, s)
        → IsCoherent (page, s)
        → IsCoherent (act client services a (page, s))
    unfolding act query_cart
    act-IsCoherent (select_currency code) page s whole h = h
    act-IsCoherent render page s whole h =
        query_with-IsCoherent (client.current page.cache (cart_key page.selected_currency)) page s h
    act-IsCoherent (add_item item) page s whole h = mutated-IsCoherent page s _ whole h
    act-IsCoherent empty_cart page s whole h = mutated-IsCoherent page s _ whole h
    act-IsCoherent (place_order order) page s whole h = mutated-IsCoherent page s _ whole h

    -- Over services whose queries change nothing, if no mutation fails half-way, then whatever the
    -- visitor does, every cart in the cache that was not invalidated is the one that the server
    -- answers with now, if that was so at first.
    pub acts-IsCoherent :
        (actions : List CartAction) (x : Page client.Cache × S)
        → AreWhole actions x
        → IsCoherent x
        → IsCoherent (acts client services actions x)
    unfolding acts
    acts-IsCoherent [] x whole h = h
    acts-IsCoherent (a ∷ rest) x whole h =
        acts-IsCoherent rest (act client services a x) whole.1 (act-IsCoherent a x.0 x.1 whole.0 h)

  shown-query_with :
      (o : Option Response) (page : Page client.Cache) (s : S) (res : Response)
      → client.current page.cache (cart_key page.selected_currency) ≡ o
      → IsCoherent (page, s)
      → answered (page, s) page.selected_currency ≡ (fulfilled res, s)
      → shown client (query_with client services o (page, s)).0 ≡ cart_in res.body
  shown-query_with (some held) page s res e h now =
      ap cart_of e
      ∙ ap (λ r. cart_in r.body) (response_injective (sym (h page.selected_currency held e) ∙ now))
  shown-query_with none page s res e h now =
      ap (λ x. shown client (fetched client services page x).0) now
      ∙ ap cart_of (client.current_store page.cache (cart_key page.selected_currency) res)

-- Over services whose queries change nothing: if the carts in the cache are those that the server
-- answers with, and no mutation fails half-way, then after whatever the visitor did, a page that is
-- rendered shows the cart that the server answers with then, in the currency selected then.
pub shown-acts :
    {S : Type 0} (client : QueryClient Response) (services : Services S) (actions : List CartAction)
    (x : Page client.Cache × S) (res : Response)
    → IsReadOnly services
    → IsCoherent client services x
    → AreWhole client services actions x
    → (let (page, s) = acts client services actions x in
        answered client services (page, s) page.selected_currency ≡ (fulfilled res, s))
    → shown client (act client services render (acts client services actions x)).0
      ≡ cart_in res.body
unfolding act query_cart
shown-acts client services actions x res readonly h whole now =
    let (page, s) = acts client services actions x in
    shown-query_with client services (client.current page.cache (cart_key page.selected_currency))
      page s res refl (acts-IsCoherent client services readonly actions x whole h) now
