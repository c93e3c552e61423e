-- ===== src/Gateways/Currency.antt =====
-- src/frontend/gateways/rpc/Currency.gateway.ts
use opentelemetry_demo_mb3r.Prelude.{String, Option, List}
use opentelemetry_demo_mb3r.Proto.{Money}
use opentelemetry_demo_mb3r.Calls.{Call}
use opentelemetry_demo_mb3r.Promise.{Promise, request}

unfoldable pub convert : Option Money → String → Promise Money
convert from to_code = request (Call.convert from to_code)

-- The field `currencyCodes` of the answer.
unfoldable pub get_supported_currencies : Promise (Option (List String))
get_supported_currencies = request Call.get_supported_currencies
