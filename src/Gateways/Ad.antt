-- ===== src/Gateways/Ad.antt =====
-- src/frontend/gateways/rpc/Ad.gateway.ts
use opentelemetry_demo_mb3r.Prelude.{String, List}
use opentelemetry_demo_mb3r.Proto.{Ad}
use opentelemetry_demo_mb3r.Calls.{Call}
use opentelemetry_demo_mb3r.Promise.{Promise, request}

-- The field `ads` of the answer.
unfoldable pub list_ads : List String → Promise (List Ad)
list_ads context_keys = request (Call.get_ads context_keys)
