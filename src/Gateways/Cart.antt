-- ===== src/Gateways/Cart.antt =====
-- src/frontend/gateways/rpc/Cart.gateway.ts
use opentelemetry_demo_mb3r.Prelude.{String, Option}
use opentelemetry_demo_mb3r.Proto.{CartItem, Cart}
use opentelemetry_demo_mb3r.Calls.{Call}
use opentelemetry_demo_mb3r.Promise.{Promise, request}

unfoldable pub get_cart : String → Promise Cart
get_cart user_id = request (Call.get_cart user_id)

unfoldable pub add_item : String → Option CartItem → Promise (Unit {0})
add_item user_id item = request (Call.add_item user_id item)

unfoldable pub empty_cart : String → Promise (Unit {0})
empty_cart user_id = request (Call.empty_cart user_id)
