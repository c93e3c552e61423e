-- ===== src/Api/Currency.antt =====
-- src/frontend/pages/api/currency.ts
use mathlib.Core.Option
use opentelemetry_demo_mb3r.Prelude.{[]}
use opentelemetry_demo_mb3r.Promise.{Promise, resolved, ◌>>=◌}
use opentelemetry_demo_mb3r.Http.{Method, get, Request, strings, Response, fresh, status, send}
use opentelemetry_demo_mb3r.Gateways

-- The last branch sets the status and sends nothing.
unfoldable pub currency_switch : Method → Request (Unit {0}) → Promise Response
unfolding Gateways.Currency.get_supported_currencies
currency_switch get req = Gateways.Currency.get_supported_currencies >>= λ codes.
    resolved (send (strings (Option.get_or codes [])) (status 200 fresh))
currency_switch _ req = resolved (status 405 fresh)

unfoldable pub currency_handler : Request (Unit {0}) → Promise Response
unfolding currency_switch
currency_handler req = currency_switch req.method req
