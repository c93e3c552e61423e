-- ===== src/Gateways/Checkout.antt =====
-- src/frontend/gateways/rpc/Checkout.gateway.ts
use opentelemetry_demo_mb3r.Proto.{PlaceOrderRequest, PlaceOrderResponse}
use opentelemetry_demo_mb3r.Calls.{Call}
use opentelemetry_demo_mb3r.Promise.{Promise, request}

unfoldable pub place_order : PlaceOrderRequest → Promise PlaceOrderResponse
place_order order = request (Call.place_order order)
