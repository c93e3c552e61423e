-- ===== src/Gateways/ProductCatalog.antt =====
-- src/frontend/gateways/rpc/ProductCatalog.gateway.ts
use opentelemetry_demo_mb3r.Prelude.{String, List}
use opentelemetry_demo_mb3r.Proto.{Product}
use opentelemetry_demo_mb3r.Calls.{Call}
use opentelemetry_demo_mb3r.Promise.{Promise, request}

-- The field `products` of the answer.
unfoldable pub list_products : Promise (List Product)
list_products = request Call.list_products

unfoldable pub get_product : String → Promise Product
get_product id = request (Call.get_product id)
