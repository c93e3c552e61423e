-- ===== src/Http.antt =====
-- The request and the response of a Next.js API route, as the handlers of src/frontend/pages/api
-- use them. A query parameter is the text that stands in the URL once; only `productIds` and
-- `contextKeys` are also read where they are repeated. `B` is the type that a handler casts the
-- body to.
use opentelemetry_demo_mb3r.Prelude.{ℕ, ℤ, String, Bool, true, false, Option, some, none, List}
use opentelemetry_demo_mb3r.Proto.{Cart, CartItem, Money, Product, ProductReview, Address, Ad}

pub data Method : Type 0 where
  get post put delete : Method
  other : String → Method

-- `string | string[] | undefined`.
pub data QueryValue : Type 0 where
  undefined : QueryValue
  text : String → QueryValue
  texts : List String → QueryValue

-- A text that the code hands to `JSON.parse` and to nothing else, as the value that it stands for.
-- `malformed` is every other text, the empty one and a missing one included.
pub data JsonText (A : Type 0) : Type 0 where
  malformed : JsonText A
  json : A → JsonText A

pub record Query : Type 0 where
  pub session_id : Option String
  pub currency_code : Option String
  pub product_id : Option String
  pub product_ids : QueryValue
  pub context_keys : QueryValue
  pub item_list : JsonText (List CartItem)
  pub address : JsonText Address

pub record Request {ℓ} (B : Type ℓ) : Type ℓ where
  pub method : Method
  pub query : Query
  pub body : B

-- `IProductCartItem` and `IProductCart` of src/frontend/types/Cart.ts.
pub record ProductCartItem : Type 0 where
  pub product_id : String
  pub quantity : ℤ
  pub product : Product

pub record ProductCart : Type 0 where
  pub user_id : String
  pub items : List ProductCartItem

-- `IProductCheckoutItem` and `IProductCheckout`. `order` is `none` where the service sent no order,
-- so that the answer has only `items`.
pub record ProductCheckoutItem : Type 0 where
  pub cost : Option Money
  pub item : ProductCartItem

pub record OrderInfo : Type 0 where
  pub order_id : String
  pub shipping_tracking_id : String
  pub shipping_cost : Option Money
  pub shipping_address : Option Address

pub record ProductCheckout : Type 0 where
  pub order : Option OrderInfo
  pub items : List ProductCheckoutItem

-- What the handlers send: `json` of a value, or `send('')`.
pub data Payload : Type 0 where
  product_cart : ProductCart → Payload
  cart : Cart → Payload
  product_checkout : ProductCheckout → Payload
  products : List Product → Payload
  product : Product → Payload
  strings : List String → Payload
  ads : List Ad → Payload
  reviews : List ProductReview → Payload
  string : String → Payload
  money : Money → Payload
  empty : Payload

-- `body` is `none` until `json` or `send` ends the response.
pub record Response : Type 0 where
  pub status_code : ℕ
  pub body : Option Payload

abbrev pub fresh : Response
fresh = record { status_code = 200; body = none }

-- `res.status(code)`.
abbrev pub status : ℕ → Response → Response
status code res = record res { status_code = code }

-- `res.json(value)` and `res.send('')`.
abbrev pub send : Payload → Response → Response
send value res = record res { body = some value }

abbrev pub is_ended : Response → Bool
is_ended res = elim res.body [ none ↦ false | some _ ↦ true ]
