-- ===== src/Lib.antt =====
-- The server side of the demo's web shop and the computations of its pages, in src/frontend, which
-- is written in TypeScript, the client and the session of its mobile app, and the payment service.
--
-- The parts and how they interact. A browser sends a request to an API route (src/frontend/pages/
-- api). The middleware (src/frontend/utils/telemetry) wraps the route's handler. The handler calls
-- gateways (src/frontend/gateways/rpc and gateways/http) and the catalog service (src/frontend/
-- services), which send calls to services outside the frontend, as the bytes of their messages, and
-- hand on what these answer. The pages (src/frontend/pages, src/frontend/components) compute totals
-- and statistics from answers. The browser's side sends its requests through a gateway of its own,
-- with the user of its session, and caches the cart.
--
--   Prelude                shared names, and lemmas on lists and integers
--   Proto                  the messages of the services: src/frontend/protos/demo.ts, interfaces
--   Calls                  the calls of the services and their answers: the client classes of the
--                          same file, and the `fetch` of src/frontend/gateways/http
--   Wire                   `encode` and `decode` of the messages in src/frontend/protos/demo.ts, in
--                          a child for each service (`CartItem.decode` is `decode_cart_item`, the
--                          switch of its loop `read_cart_item`)
--   Wire/Reading, Nesting  what a decoder makes of the bytes of fields and of nested messages
--   Wire/Unknown           fields that a decoder has no case for
--   Wire/Fuel              the rounds of the loop of a decoder
--   Json                   `fromJSON` and `toJSON` of the messages in src/frontend/protos/demo.ts
--                          (`CartItem.fromJSON` is `from_json_cart_item`)
--   Json/Fields            the fields of a message as JSON, written and read
--   Stub                   the service definitions of the same file, and calls as bytes
--   Promise                `Promise` and `async`: a computation that has settled or waits for the
--                          answer to a call; `run` answers the calls of a promise one by one
--   Promise/All            `Promise.all`, its tasks answered one after the other
--   Promise/Returns        what a promise is fulfilled with, whatever the answers
--   Promise/Schedule       the event loop, which answers waiting tasks in any order
--   Promise/InTime         `Promise.all` over such an order: the first rejection in time
--   Promise/Settled        schedules that answer every task often enough
--   Http                   the request and the response of a handler; src/frontend/types/Cart.ts
--   Gateways               src/frontend/gateways/rpc/*.gateway.ts (`getCart` is `get_cart`), and
--                          src/frontend/gateways/http/Shipping.gateway.ts
--   Catalog                src/frontend/services/ProductCatalog.service.ts (`getProductPrice`,
--                          `listProducts`, `getProduct`)
--   ReviewService          src/frontend/services/ProductReview.service.ts
--   Api                    src/frontend/pages/api: a handler is `<route>_handler`, its `switch`
--                          `<route>_switch`; Api/Routes has all eleven
--   Middleware             src/frontend/utils/telemetry/InstrumentationMiddleware.ts
--   Totals                 `orderTotal` and `itemTotal` of src/frontend/pages/cart/checkout/
--                          [orderId]/index.tsx, `total` of src/frontend/components/CartItems
--   Reviews                `distribution` and `normalizedPercents` of src/frontend/components/
--                          ProductReviews/ProductReviews.tsx
--   Client                 src/frontend/gateways/Api.gateway.ts and utils/Request.ts: the requests
--                          of the client (`Apis()` is `request_of`)
--   Session                src/frontend/gateways/Session.gateway.ts
--   Provider               src/frontend/providers/Cart.provider.tsx: the cart that the pages show
--   Ads                    src/frontend/providers/Ad.provider.tsx, and the lists that the pages hand to
--                          it
--   Assistant              the questions to the assistant: src/frontend/providers/
--                          ProductAIAssistant.provider.tsx, and `handleAskAI` and its callers of
--                          src/frontend/components/ProductReviews/ProductReviews.tsx
--   Mobile                 src/react-native-app/gateways/Api.gateway.ts and utils/Request.ts
--   Mobile/Session         src/react-native-app/gateways/Session.gateway.ts, its calls interleaved
--   Form                   src/frontend/components/CheckoutForm/CheckoutForm.tsx, and `onPlaceOrder`
--                          of src/frontend/components/Cart/CartDetail.tsx
--   Payment                src/payment/charge.js and `chargeServiceHandler` of src/payment/index.js
--   Fixtures, TestWire,    a small shop as the services, a small wire, and a small query client
--   TestCache
--   Tests                  the theorems at concrete inputs
--
-- State and parameters. The services are a parameter, `Services S`: a function from a call and the
-- services' state to an answer and a state. What the code relies on is a hypothesis of a theorem:
-- that a call is answered so, that queries change nothing (`IsReadOnly`), that the cart service
-- keeps items by user (`CartContract`; the hour after which it forgets a cart is left out). The
-- query client of the browser is a parameter too, `QueryClient`, and so are the observer of its
-- mutations, `Mutations`, and JavaScript's conversions of JSON values to texts and numbers,
-- `Conversions`. An error of a stub, of `fetch` or of `JSON.parse` is a rejected promise. Every
-- promise of the model is finite, so that `run` always settles. The `BinaryWriter` and
-- `BinaryReader` of @bufbuild/protobuf are a parameter, `Wire`, with the laws that a value is read
-- back from its bytes, if it is in range, and that a reader only moves forward. A writer refuses a
-- value out of range with an exception; such values are outside of the theorems. The loop of a
-- decoder has one round more than there are bytes; every round but the last reads a tag, which has
-- a byte; a loop that would go on is told from one that throws (`run_loop`).
--
-- Numbers. Units, nanos and quantities are integers. JavaScript computes with doubles: sums and
-- products up to 2^53 are exact, and so is the floor of such a number divided by 10^9, since a
-- quotient that is no whole number is at least 10^-9 away from one, and the rounding of a quotient
-- below 2^53 / 10^9 moves it by less than that. The shares of a hundred in the review statistics
-- are not exact, and are a parameter there, `Percents`, with the bounds that their floors keep and
-- the order of their fractions; `rounded` is `Math.round(Number(text))`.
--
-- Choices. A query parameter that a handler casts to a string is one text or missing. A text that
-- is only handed to `JSON.parse` is the value that it stands for, or `malformed`. The tasks of a
-- `Promise.all` are answered one after the other; Promise/Schedule has the steps of other orders,
-- and Promise/InTime has the rejection that then comes first. A request about a product is that
-- for an identifier that is one segment of a path (`is_segment`).
--
-- Not modelled: the sorted list of the currencies and the query of the reviews, the markup and
-- styles of the pages, the rest of the mobile app, the set-up of the payment service and its logs,
-- `fromPartial` and `create` of the messages, the bytes of the messages of the feature-flag
-- service, which the frontend never calls, the set-up of the telemetry, and the services in other
-- languages.
pub mod Prelude
pub mod Fixtures
pub mod TestWire
pub mod TestCache
pub mod Proto
pub mod Calls
pub mod Promise
pub mod Http
pub mod Gateways
pub mod Catalog
pub mod ReviewService
pub mod Api
pub mod Middleware
pub mod Totals
pub mod Reviews
pub mod Wire
pub mod Json
pub mod Stub
pub mod Client
pub mod Session
pub mod Mobile
pub mod Payment
pub mod Provider
pub mod Ads
pub mod Form
pub mod Assistant
pub mod Tests
