-- ===== src/Provider.antt =====
-- src/frontend/providers/Cart.provider.tsx, and `onSelectCurrency` of
-- src/frontend/providers/Currency.provider.tsx: the cart that the pages show. The query client of
-- @tanstack/react-query is the parameter `QueryClient`, and the request of a query or a mutation goes
-- to the handler of its route. A handler that fails has an answer that is no JSON, so that the
-- gateway's promise is rejected. That the client also fetches a current query again, on mounting and
-- on focus, is left out, and so is the local storage of the selected currency (Session.antt).
pub mod Coherence
use opentelemetry_demo_mb3r.Prelude.{String, ◌≡◌, ◌≢◌, Option, none, some, List, [], ◌∷◌, ◌++◌}
use opentelemetry_demo_mb3r.Proto.{CartItem, PlaceOrderRequest}
use opentelemetry_demo_mb3r.Calls.{Services}
use opentelemetry_demo_mb3r.Promise.{Outcome, fulfilled, failed, run}
use opentelemetry_demo_mb3r.Http.{Response, ProductCart, Payload, product_cart}
use opentelemetry_demo_mb3r.Api.Routes.{handle}
use opentelemetry_demo_mb3r.Client.{ApiCall, request_of}

-- The cache of queries by their keys: `current` is the data of a query that has been fetched and not
-- been invalidated since; `invalidate` invalidates the queries whose keys start with the given one.
pub record QueryClient (D : Type 0) : Type 1 where
  pub Cache : Type 0
  pub current : Cache → List String → Option D
  pub store : List String → D → Cache → Cache
  pub invalidate : List String → Cache → Cache
  pub current_store : (c : Cache) (key : List String) (d : D) → current (store key d c) key ≡ some d
  pub current_other :
      (c : Cache) (key other : List String) (d : D)
      → other ≢ key
      → current (store key d c) other ≡ current c other
  pub current_invalidate :
      (c : Cache) (start rest : List String) → current (invalidate start c) (start ++ rest) ≡ none

-- `['cart', selectedCurrency]`.
abbrev pub cart_key : String → List String
cart_key currency_code = "cart" ∷ currency_code ∷ []

-- What a visitor does, and the render of a page, which queries the cart.
pub data CartAction : Type 0 where
  select_currency : String → CartAction
  render : CartAction
  add_item : CartItem → CartAction
  empty_cart : CartAction
  place_order : PlaceOrderRequest → CartAction

-- The session's user, the selected currency, and the cache.
pub record Page (Cache : Type 0) : Type 0 where
  pub user_id : String
  pub selected_currency : String
  pub cache : Cache

module _ {S : Type 0} (client : QueryClient Response) (services : Services S) where
  abbrev pub ask : ApiCall → Page client.Cache × S → Outcome Response × S
  ask call (page, s) = run services (handle (request_of page.user_id call)) s

  abbrev pub fetched : Page client.Cache → Outcome Response × S → Page client.Cache × S
  fetched page (failed e, s) = (page, s)
  fetched page (fulfilled res, s) =
      (record page { cache = client.store (cart_key page.selected_currency) res page.cache }, s)

  abbrev pub query_with : Option Response → Page client.Cache × S → Page client.Cache × S
  query_with (some res) x = x
  query_with none (page, s) = fetched page (ask (ApiCall.get_cart page.selected_currency) (page, s))

  -- `useQuery({ queryKey: ['cart', selectedCurrency], queryFn })`.
  unfoldable pub query_cart : Page client.Cache × S → Page client.Cache × S
  query_cart (page, s) =
      query_with (client.current page.cache (cart_key page.selected_currency)) (page, s)

  -- `onSuccess`, after a mutation that succeeded.
  abbrev pub mutated : Page client.Cache → Outcome Response × S → Page client.Cache × S
  mutated page (failed e, s) = (page, s)
  mutated page (fulfilled res, s) =
      (record page { cache = client.invalidate ("cart" ∷ []) page.cache }, s)

  -- The request of a mutation.
  abbrev pub mutation_of : Page client.Cache → CartAction → Option ApiCall
  mutation_of page (select_currency code) = none
  mutation_of page render = none
  mutation_of page (add_item item) = some (ApiCall.add_cart_item page.selected_currency item)
  mutation_of page empty_cart = some ApiCall.empty_cart
  mutation_of page (place_order order) = some (ApiCall.place_order page.selected_currency order)

  unfoldable pub act : CartAction → Page client.Cache × S → Page client.Cache × S
  unfolding query_cart
  act (select_currency code) (page, s) = (record page { selected_currency = code }, s)
  act render (page, s) = query_cart (page, s)
  act (add_item item) (page, s) =
      mutated page (ask (ApiCall.add_cart_item page.selected_currency item) (page, s))
  act empty_cart (page, s) = mutated page (ask ApiCall.empty_cart (page, s))
  act (place_order order) (page, s) =
      mutated page (ask (ApiCall.place_order page.selected_currency order) (page, s))

  unfoldable pub acts : List CartAction → Page client.Cache × S → Page client.Cache × S
  unfolding act
  acts [] x = x
  acts (a ∷ rest) x = acts rest (act a x)

abbrev pub no_cart : ProductCart
no_cart = record { user_id = ""; items = [] }

abbrev pub cart_in : Option Payload → ProductCart
cart_in (some (product_cart cart)) = cart
cart_in _ = no_cart

-- `data: cart = { userId: '', items: [] }`.
abbrev pub cart_of : Option Response → ProductCart
cart_of none = no_cart
cart_of (some res) = cart_in res.body

-- The `cart` of the context.
abbrev pub shown : (client : QueryClient Response) → Page client.Cache → ProductCart
shown client page = cart_of (client.current page.cache (cart_key page.selected_currency))
