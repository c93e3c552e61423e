-- ===== src/Api/Products.antt =====
-- src/frontend/pages/api/products/index.ts and src/frontend/pages/api/products/[productId]/index.ts
use mathlib.Core.Option
use opentelemetry_demo_mb3r.Promise.{Promise, resolved, ◌>>=◌}
use opentelemetry_demo_mb3r.Http.{
  Method, get, Request, products, product, empty, Response, fresh, status, send,
}
use opentelemetry_demo_mb3r.Catalog

unfoldable pub products_switch : Method → Request (Unit {0}) → Promise Response
unfolding Catalog.list_products
products_switch get req =
    Catalog.list_products (Option.get_or req.query.currency_code "") >>= λ product_list.
    resolved (send (products product_list) (status 200 fresh))
products_switch _ req = resolved (send empty (status 405 fresh))

unfoldable pub products_handler : Request (Unit {0}) → Promise Response
unfolding products_switch
products_handler req = products_switch req.method req

unfoldable pub product_switch : Method → Request (Unit {0}) → Promise Response
unfolding Catalog.get_product
product_switch get req =
    Catalog.get_product (Option.get_or req.query.product_id "")
      (Option.get_or req.query.currency_code "")
    >>= λ found. resolved (send (product found) (status 200 fresh))
product_switch _ req = resolved (send empty (status 405 fresh))

unfoldable pub product_handler : Request (Unit {0}) → Promise Response
unfolding product_switch
product_handler req = product_switch req.method req
