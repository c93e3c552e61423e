-- ===== src/Gateways/Shipping.antt =====
-- src/frontend/gateways/http/Shipping.gateway.ts. The message of the error that is thrown is the
-- status line and the text of the answer.
use Prim.Native.String
use opentelemetry_demo_mb3r.Prelude.{Option, none, some, List, map, if◌then◌else◌}
use mathlib.Core.Option
use opentelemetry_demo_mb3r.Proto.{CartItem, Money, Address}
use opentelemetry_demo_mb3r.Calls.{http_error, syntax_error, Call, QuoteItem, CostUsd}
use opentelemetry_demo_mb3r.Promise.{Promise, resolved, rejected, ◌>>=◌, request}

abbrev pub transform_cart_item : CartItem → QuoteItem
transform_cart_item item = record { product_id = item.product_id; quantity = item.quantity }

unfoldable pub transform_cart_items : List CartItem → List QuoteItem
transform_cart_items = map transform_cart_item

abbrev pub transform_cost : CostUsd → Money
transform_cost cost = record {
  currency_code = cost.currency_code;
  units = cost.units;
  nanos = cost.nanos;
}

-- `response.json()`, and `data.cost_usd ? … : undefined`.
abbrev pub read_cost : Option (Option CostUsd) → Promise (Option Money)
read_cost none = rejected syntax_error
read_cost (some cost_usd) = resolved (Option.map transform_cost cost_usd)

-- The field `costUsd` of the result.
unfoldable pub get_shipping_cost : List CartItem → Address → Promise (Option Money)
unfolding transform_cart_items
get_shipping_cost item_list address =
    request (Call.get_quote (record { items = transform_cart_items item_list; address = address }))
    >>= λ reply.
        if reply.ok
        then read_cost reply.json_data
        else rejected (http_error (String.◌++◌ reply.status_line (String.◌++◌ " - " reply.text)))
