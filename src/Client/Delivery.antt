-- ===== src/Client/Delivery.antt =====
-- The requests of src/frontend/gateways/Api.gateway.ts at the handlers of src/frontend/pages/api.
use opentelemetry_demo_mb3r.Prelude.{ℕ, String, ◌≡◌, refl, ◌∙◌, true}
use opentelemetry_demo_mb3r.Calls.{Services}
use opentelemetry_demo_mb3r.Promise.{fulfilled, outcome}
use opentelemetry_demo_mb3r.Http.{Response, is_ended}
use opentelemetry_demo_mb3r.Api.Routes.{handle}
use opentelemetry_demo_mb3r.Api.Routes.Statuses.{promised_status, ends, handle_status}
use opentelemetry_demo_mb3r.Client.{ApiCall, is_segment, request_of}

-- The status of the answer that a method of the gateway expects.
abbrev pub expected_status : ApiCall → ℕ
expected_status ApiCall.empty_cart = 204
expected_status _ = 200

request_of_status :
    (user_id : String) (call : ApiCall)
    → (promised_status (request_of user_id call) ≡ expected_status call)
      × (ends (request_of user_id call) ≡ true)
unfolding request_of
request_of_status user_id (ApiCall.get_cart _) = (refl, refl)
request_of_status user_id (ApiCall.add_cart_item _ _) = (refl, refl)
request_of_status user_id ApiCall.empty_cart = (refl, refl)
request_of_status user_id ApiCall.get_supported_currency_list = (refl, refl)
request_of_status user_id (ApiCall.get_shipping_cost _ _ _) = (refl, refl)
request_of_status user_id (ApiCall.place_order _ _) = (refl, refl)
request_of_status user_id (ApiCall.list_products _) = (refl, refl)
request_of_status user_id (ApiCall.get_product _ _) = (refl, refl)
request_of_status user_id (ApiCall.get_product_reviews _) = (refl, refl)
request_of_status user_id (ApiCall.get_average_product_review_score _) = (refl, refl)
request_of_status user_id (ApiCall.ask_product_ai_assistant _ _) = (refl, refl)
request_of_status user_id (ApiCall.list_recommendations _ _) = (refl, refl)
request_of_status user_id (ApiCall.list_ads _) = (refl, refl)

-- The product that a call names is a segment of a path.
abbrev pub NamesSegment : ApiCall → Type 0
NamesSegment (ApiCall.get_product id _) = is_segment id ≡ true
NamesSegment (ApiCall.get_product_reviews id) = is_segment id ≡ true
NamesSegment (ApiCall.get_average_product_review_score id) = is_segment id ≡ true
NamesSegment (ApiCall.ask_product_ai_assistant id _) = is_segment id ≡ true
NamesSegment _ = Unit

pub handle-request_of :
    {S : Type 0} (services : Services S) (user_id : String) (call : ApiCall) (s : S)
    (res : Response)
    → outcome services (handle (request_of user_id call)) s ≡ fulfilled res
    → (res.status_code ≡ expected_status call) × (is_ended res ≡ true)
handle-request_of services user_id call s res h =
    let (code, ended) = handle_status services (request_of user_id call) s res h in
    let (code', ended') = request_of_status user_id call in (code ∙ code', ended ∙ ended')

-- Whatever the services answer, if the product that a call is about, if any, has an identifier that
-- is a segment of a path, and the handler of the client's request is fulfilled, then the response has
-- the status 204 for an emptied cart and 200 for every other method of the gateway, and it is ended:
-- no such call is refused with a 405, or waits for ever.
pub request_of_answered :
    {S : Type 0} (services : Services S) (user_id : String) (call : ApiCall) (s : S)
    (res : Response)
    → NamesSegment call
    → outcome services (handle (request_of user_id call)) s ≡ fulfilled res
    → (res.status_code ≡ expected_status call) × (is_ended res ≡ true)
request_of_answered services user_id call s res segment h =
    handle-request_of services user_id call s res h
