-- ===== src/Api/Shipping.antt =====
-- src/frontend/pages/api/shipping.ts
pub mod Quoted
use mathlib.Core.Option
use opentelemetry_demo_mb3r.Prelude.{String, List}
use opentelemetry_demo_mb3r.Proto.{CartItem, Address}
use opentelemetry_demo_mb3r.Calls.{syntax_error}
use opentelemetry_demo_mb3r.Promise.{Promise, resolved, rejected, ◌>>=◌}
use opentelemetry_demo_mb3r.Http.{
  Method, get, JsonText, malformed, json, Request, money, Response, fresh, status, send,
}
use opentelemetry_demo_mb3r.Gateways

-- `JSON.parse` in an `async` function.
abbrev pub parse_json : {A : Type 0} → JsonText A → Promise A
parse_json malformed = rejected syntax_error
parse_json (json a) = resolved a

-- What follows the two `JSON.parse`.
unfoldable pub quote_route : List CartItem → Address → String → Promise Response
unfolding Gateways.Shipping.get_shipping_cost Gateways.Currency.convert
quote_route item_list address currency_code =
    Gateways.Shipping.get_shipping_cost item_list address >>= λ cost_usd.
    Gateways.Currency.convert cost_usd currency_code >>= λ cost.
    resolved (send (money cost) (status 200 fresh))

-- The last branch sets the status and sends nothing.
unfoldable pub shipping_switch : Method → Request (Unit {0}) → Promise Response
unfolding quote_route
shipping_switch get req = parse_json req.query.item_list >>= λ item_list.
    parse_json req.query.address >>= λ address.
    quote_route item_list address (Option.get_or req.query.currency_code "USD")
shipping_switch _ req = resolved (status 405 fresh)

unfoldable pub shipping_handler : Request (Unit {0}) → Promise Response
unfolding shipping_switch
shipping_handler req = shipping_switch req.method req
