-- ===== src/Api/Routes.antt =====
-- Every API route of the server: the files of src/frontend/pages/api.
pub mod Statuses
use opentelemetry_demo_mb3r.Prelude.{String}
use opentelemetry_demo_mb3r.Proto.{AddItemRequest, PlaceOrderRequest}
use opentelemetry_demo_mb3r.Promise.{Promise}
use opentelemetry_demo_mb3r.Http.{Request, Response}
use opentelemetry_demo_mb3r.Api.Cart.{cart_handler}
use opentelemetry_demo_mb3r.Api.Checkout.{checkout_handler}
use opentelemetry_demo_mb3r.Api.Products.{products_handler, product_handler}
use opentelemetry_demo_mb3r.Api.Recommendations.{recommendations_handler}
use opentelemetry_demo_mb3r.Api.Data.{data_handler}
use opentelemetry_demo_mb3r.Api.Currency.{currency_handler}
use opentelemetry_demo_mb3r.Api.Shipping.{shipping_handler}
use opentelemetry_demo_mb3r.Api.ProductReviews.{reviews_handler, average_score_handler, ask_handler}

-- The files of src/frontend/pages/api, each with the request that it handles.
pub data Route : Type 0 where
  cart : Request AddItemRequest → Route
  checkout : Request PlaceOrderRequest → Route
  products product recommendations data_ads currency shipping reviews average_score :
      Request (Unit {0}) → Route
  ask : Request String → Route

unfoldable pub handle : Route → Promise Response
unfolding cart_handler checkout_handler products_handler product_handler recommendations_handler
    data_handler currency_handler shipping_handler reviews_handler average_score_handler ask_handler
handle (cart req) = cart_handler req
handle (checkout req) = checkout_handler req
handle (products req) = products_handler req
handle (product req) = product_handler req
handle (recommendations req) = recommendations_handler req
handle (data_ads req) = data_handler req
handle (currency req) = currency_handler req
handle (shipping req) = shipping_handler req
handle (reviews req) = reviews_handler req
handle (average_score req) = average_score_handler req
handle (ask req) = ask_handler req
