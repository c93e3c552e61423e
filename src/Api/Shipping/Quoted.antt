-- ===== src/Api/Shipping/Quoted.antt =====
-- The answers of the shipping route, src/frontend/pages/api/shipping.ts.
use mathlib.Core.Option
use mathlib.Core.Path.{ap₂}
use Prim.Native.String
use opentelemetry_demo_mb3r.Prelude.{
  String, ◌≡◌, ap, ◌∙◌, true, false, Option, some, List, [], ◌∷◌, map,
}
use opentelemetry_demo_mb3r.Proto.{CartItem, Money, Address}
use opentelemetry_demo_mb3r.Calls.{Call, http_error, CostUsd, HttpReply, response, Services}
use opentelemetry_demo_mb3r.Promise.{
  fulfilled, failed, ◌>>=◌, run, calls, run-waiting, run-resolved, run-rejected, calls-waiting,
  calls-rejected,
}
use opentelemetry_demo_mb3r.Http.{get, json, Request, money, Response}
use opentelemetry_demo_mb3r.Gateways.Shipping.{transform_cost, get_shipping_cost}
use opentelemetry_demo_mb3r.Api.Shipping.{
  parse_json, quote_route, shipping_switch, shipping_handler,
}

-- The request for a quote, as the shipping service's interface describes it.
abbrev pub quote_call : List CartItem → Address → Call
quote_call items address = Call.get_quote (record {
  items = map (λ i. record { product_id = i.product_id; quantity = i.quantity }) items;
  address = address;
})

abbrev pub quote_currency : Request (Unit {0}) → String
quote_currency req = Option.get_or req.query.currency_code "USD"

-- The handler of a GET whose two texts are JSON.
shipping_handler-quote_route :
    (req : Request (Unit {0})) {items : List CartItem} {address : Address}
    → req.method ≡ get
    → req.query.item_list ≡ json items
    → req.query.address ≡ json address
    → shipping_handler req ≡ quote_route items address (quote_currency req)
unfolding shipping_handler shipping_switch
shipping_handler-quote_route req method item_text address_text =
    ap (λ m. shipping_switch m req) method
    ∙ ap₂
        (λ i a. parse_json i >>= λ items.
          parse_json a >>= λ address. quote_route items address (quote_currency req))
        item_text address_text

-- If the shipping service quotes a price for the items and the currency service converts it, then
-- a GET whose two texts are JSON answers 200 with the converted price.
pub run-shipping :
    {S : Type 0} (services : Services S) (s s' s'' : S) (req : Request (Unit {0}))
    (items : List CartItem) (address : Address) (reply : HttpReply) (usd : Option CostUsd)
    (cost : Money)
    → req.method ≡ get
    → req.query.item_list ≡ json items
    → req.query.address ≡ json address
    → services (quote_call items address) s ≡ (response reply, s')
    → reply.ok ≡ true
    → reply.json_data ≡ some usd
    → services (Call.convert (Option.map transform_cost usd) (quote_currency req)) s'
      ≡ (response cost, s'')
    → run services (shipping_handler req) s
      ≡ (fulfilled (record { status_code = 200; body = some (money cost) }), s'')
unfolding quote_route get_shipping_cost
run-shipping services s s' s'' req items address reply usd cost method item_text address_text quoted
      fine with_cost converted =
    ap (λ p. run services p s)
      (shipping_handler-quote_route req {items = items} {address = address} method item_text
        address_text)
    ∙ run-waiting services (quote_call items address) _ s quoted
    ∙ rw (fine, with_cost)
        (run-waiting services (Call.convert (Option.map transform_cost usd) (quote_currency req)) _
          s' converted)
    ∙ run-resolved services _ s''

-- If the shipping service answers such a GET with an error status, then the handler fails with an
-- error that names the status line and the text of the answer, and no price is converted: the
-- quote was the only call.
pub shipping_refused :
    {S : Type 0} (services : Services S) (s s' : S) (req : Request (Unit {0}))
    (items : List CartItem) (address : Address) (reply : HttpReply)
    → req.method ≡ get
    → req.query.item_list ≡ json items
    → req.query.address ≡ json address
    → services (quote_call items address) s ≡ (response reply, s')
    → reply.ok ≡ false
    → (run services (shipping_handler req) s
        ≡ (failed (http_error (String.◌++◌ reply.status_line (String.◌++◌ " - " reply.text))), s'))
      × (calls services (shipping_handler req) s ≡ quote_call items address ∷ [])
unfolding quote_route get_shipping_cost
shipping_refused services s s' req items address reply method item_text address_text quoted bad =
    let same =
      shipping_handler-quote_route req {items = items} {address = address} method item_text
        address_text in
    (
      ap (λ p. run services p s) same
          ∙ run-waiting services (quote_call items address) _ s quoted
          ∙ rw bad (run-rejected services _ s'),
      ap (λ p. calls services p s) same
          ∙ calls-waiting services (quote_call items address) _ s quoted
          ∙ rw bad
              (ap (λ cs. quote_call items address ∷ cs) (calls-rejected services Response _ s')),
    )
