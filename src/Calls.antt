-- ===== src/Calls.antt =====
-- The calls that the frontend's server makes on other services, as the stubs of
-- src/frontend/protos/demo.ts and the `fetch` of src/frontend/gateways/http/Shipping.gateway.ts
-- send them, and what comes back. The services themselves are not modelled: `Services` is a
-- parameter wherever calls are answered.
use opentelemetry_demo_mb3r.Prelude.{ℕ, ℤ, String, Bool, Option, List}
use opentelemetry_demo_mb3r.Proto.{
  CartItem, Cart, Money, Product, ProductReview, Address, PlaceOrderRequest, PlaceOrderResponse, Ad,
}

-- What a promise is rejected with: the `ServiceError` of a stub, the `Error` of the shipping
-- gateway, and the `SyntaxError` of `JSON.parse`.
pub data Failure : Type 0 where
  service_error : ℕ → String → Failure
  http_error : String → Failure
  syntax_error : Failure

-- The body of the request to `/get-quote`, in the snake case of its HTTP interface.
pub record QuoteItem : Type 0 where
  pub product_id : String
  pub quantity : ℤ

pub record QuoteRequest : Type 0 where
  pub items : List QuoteItem
  pub address : Address

-- `data.cost_usd` of the answer.
pub record CostUsd : Type 0 where
  pub currency_code : String
  pub units : ℤ
  pub nanos : ℤ

-- The `Response` of `fetch`: `ok`, the line `HTTP error: status statusText`, `text()`, and the field
-- `cost_usd` of `json()`; `none` is a text that is no JSON.
pub record HttpReply : Type 0 where
  pub ok : Bool
  pub status_line : String
  pub text : String
  pub json_data : Option (Option CostUsd)

pub data Call : Type 0 where
  get_cart : String → Call
  add_item : String → Option CartItem → Call
  empty_cart : String → Call
  list_products : Call
  get_product : String → Call
  convert : Option Money → String → Call
  get_supported_currencies : Call
  place_order : PlaceOrderRequest → Call
  get_ads : List String → Call
  list_recommendations : String → List String → Call
  get_product_reviews : String → Call
  get_average_product_review_score : String → Call
  ask_product_ai_assistant : String → String → Call
  get_quote : QuoteRequest → Call

abbrev pub Reply : Call → Type 0
Reply (get_cart _) = Cart
Reply (add_item _ _) = Unit
Reply (empty_cart _) = Unit
Reply list_products = List Product
Reply (get_product _) = Product
Reply (convert _ _) = Money
Reply get_supported_currencies = Option (List String)
Reply (place_order _) = PlaceOrderResponse
Reply (get_ads _) = List Ad
Reply (list_recommendations _ _) = List String
Reply (get_product_reviews _) = List ProductReview
Reply (get_average_product_review_score _) = String
Reply (ask_product_ai_assistant _ _) = String
Reply (get_quote _) = HttpReply

-- The arguments of a stub's callback: `(error, response)` with one of the two set.
pub data Callback {ℓ} (A : Type ℓ) : Type ℓ where
  error : Failure → Callback A
  response : A → Callback A

-- The services, over a state of theirs that calls may change.
abbrev pub Services : Type 0 → Type 0
Services S = (c : Call) → S → Callback (Reply c) × S
