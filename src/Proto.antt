-- ===== src/Proto.antt =====
-- The messages that the frontend exchanges with the services: the interfaces of
-- src/frontend/protos/demo.ts. A field of type `T | undefined` is an `Option T`; `int32` and
-- `int64` fields are integers.
use opentelemetry_demo_mb3r.Prelude.{ℤ, String, Bool, Option, List}

pub record CartItem : Type 0 where
  pub product_id : String
  pub quantity : ℤ

pub record AddItemRequest : Type 0 where
  pub user_id : String
  pub item : Option CartItem

pub record Cart : Type 0 where
  pub user_id : String
  pub items : List CartItem

pub record Money : Type 0 where
  pub currency_code : String
  pub units : ℤ
  pub nanos : ℤ

pub record Product : Type 0 where
  pub id : String
  pub name : String
  pub description : String
  pub picture : String
  pub price_usd : Option Money
  pub categories : List String

pub record ProductReview : Type 0 where
  pub username : String
  pub description : String
  pub score : String

pub record Address : Type 0 where
  pub street_address : String
  pub city : String
  pub state : String
  pub country : String
  pub zip_code : String

pub record CreditCardInfo : Type 0 where
  pub credit_card_number : String
  pub credit_card_cvv : ℤ
  pub credit_card_expiration_year : ℤ
  pub credit_card_expiration_month : ℤ

pub record OrderItem : Type 0 where
  pub item : Option CartItem
  pub cost : Option Money

pub record OrderResult : Type 0 where
  pub order_id : String
  pub shipping_tracking_id : String
  pub shipping_cost : Option Money
  pub shipping_address : Option Address
  pub items : List OrderItem

pub record PlaceOrderRequest : Type 0 where
  pub user_id : String
  pub user_currency : String
  pub address : Option Address
  pub email : String
  pub credit_card : Option CreditCardInfo

pub record PlaceOrderResponse : Type 0 where
  pub order : Option OrderResult

pub record Ad : Type 0 where
  pub redirect_url : String
  pub text : String

-- The requests and the responses of the calls.
pub record EmptyCartRequest : Type 0 where
  pub user_id : String

pub record GetCartRequest : Type 0 where
  pub user_id : String

pub record ListRecommendationsRequest : Type 0 where
  pub user_id : String
  pub product_ids : List String

pub record ListRecommendationsResponse : Type 0 where
  pub product_ids : List String

pub record GetSupportedCurrenciesResponse : Type 0 where
  pub currency_codes : List String

pub record CurrencyConversionRequest : Type 0 where
  pub from : Option Money
  pub to_code : String

pub record ListProductsResponse : Type 0 where
  pub products : List Product

pub record GetProductRequest : Type 0 where
  pub id : String

pub record GetProductReviewsRequest : Type 0 where
  pub product_id : String

pub record GetProductReviewsResponse : Type 0 where
  pub product_reviews : List ProductReview

pub record GetAverageProductReviewScoreRequest : Type 0 where
  pub product_id : String

pub record GetAverageProductReviewScoreResponse : Type 0 where
  pub average_score : String

pub record AskProductAiAssistantRequest : Type 0 where
  pub product_id : String
  pub question : String

pub record AskProductAiAssistantResponse : Type 0 where
  pub response : String

pub record AdRequest : Type 0 where
  pub context_keys : List String

pub record AdResponse : Type 0 where
  pub ads : List Ad

pub record GetQuoteRequest : Type 0 where
  pub address : Option Address
  pub items : List CartItem

pub record GetQuoteResponse : Type 0 where
  pub cost_usd : Option Money

pub record ShipOrderRequest : Type 0 where
  pub address : Option Address
  pub items : List CartItem

pub record ShipOrderResponse : Type 0 where
  pub tracking_id : String

pub record SearchProductsRequest : Type 0 where
  pub query : String

pub record SearchProductsResponse : Type 0 where
  pub results : List Product

pub record ChargeRequest : Type 0 where
  pub amount : Option Money
  pub credit_card : Option CreditCardInfo

pub record ChargeResponse : Type 0 where
  pub transaction_id : String

pub record SendOrderConfirmationRequest : Type 0 where
  pub email : String
  pub order : Option OrderResult

pub record Flag : Type 0 where
  pub name : String
  pub description : String
  pub enabled : Bool

pub record GetFlagRequest : Type 0 where
  pub name : String

pub record GetFlagResponse : Type 0 where
  pub flag : Option Flag

pub record CreateFlagRequest : Type 0 where
  pub name : String
  pub description : String
  pub enabled : Bool

pub record CreateFlagResponse : Type 0 where
  pub flag : Option Flag

pub record UpdateFlagRequest : Type 0 where
  pub name : String
  pub enabled : Bool

pub record ListFlagsResponse : Type 0 where
  pub flag : List Flag

pub record DeleteFlagRequest : Type 0 where
  pub name : String
