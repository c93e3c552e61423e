-- ===== src/Api/Recommendations.antt =====
-- src/frontend/pages/api/recommendations.ts
pub mod Shown
use mathlib.Core.Option
use opentelemetry_demo_mb3r.Prelude.{[], map, take}
use opentelemetry_demo_mb3r.Promise.{Promise, resolved, ◌>>=◌}
use opentelemetry_demo_mb3r.Promise.All.{all}
use opentelemetry_demo_mb3r.Http.{
  Method, get, QueryValue, undefined, texts, Request, products, empty, Response, fresh, status,
  send,
}
use opentelemetry_demo_mb3r.Gateways
use opentelemetry_demo_mb3r.Catalog

-- `{ productIds = [] }`: the default stands for `undefined` only.
abbrev pub or_empty : QueryValue → QueryValue
or_empty undefined = texts []
or_empty value = value

unfoldable pub recommendations_switch : Method → Request (Unit {0}) → Promise Response
unfolding Gateways.Recommendations.list_recommendations Catalog.get_product
recommendations_switch get req =
    let session_id = Option.get_or req.query.session_id "" in
    let currency_code = Option.get_or req.query.currency_code "" in
    Gateways.Recommendations.list_recommendations session_id (or_empty req.query.product_ids)
    >>= λ product_list.
        all (map (λ id. Catalog.get_product id currency_code) (take 4 product_list))
        >>= λ recommended. resolved (send (products recommended) (status 200 fresh))
recommendations_switch _ req = resolved (send empty (status 405 fresh))

unfoldable pub recommendations_handler : Request (Unit {0}) → Promise Response
unfolding recommendations_switch
recommendations_handler req = recommendations_switch req.method req
