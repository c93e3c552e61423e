-- ===== src/Tests/Requests.antt =====
-- The routes' statuses and the wrapper of the handlers, at concrete requests.
use opentelemetry_demo_mb3r.Prelude.{false, ◌≡◌, refl, some}
use opentelemetry_demo_mb3r.Promise.{fulfilled, outcome, run}
use opentelemetry_demo_mb3r.Http.{get, put, is_ended, status, fresh}
use opentelemetry_demo_mb3r.Middleware.{Telemetry, instrument, target_of}
use opentelemetry_demo_mb3r.Middleware.Records.{Records, instrument_lem}
use opentelemetry_demo_mb3r.Api.Routes.{currency, handle}
use opentelemetry_demo_mb3r.Api.Routes.Statuses.{handle_status}
use opentelemetry_demo_mb3r.Fixtures.{shop, one_cart, request_u1}

-- A PUT of the currencies: the handler is fulfilled, and its response is never ended.
put_settled :
    outcome shop (handle (currency (request_u1 put tt))) one_cart ≡ fulfilled (status 405 fresh)
unfolding handle run
put_settled = refl

handle_status_example :
    ((status 405 fresh).status_code ≡ 405) × (is_ended (status 405 fresh) ≡ false)
handle_status_example =
    handle_status shop (currency (request_u1 put tt)) one_cart (status 405 fresh) put_settled

instrument_lem_example :
    (t : Telemetry) × (run shop
        (instrument get (some "/api/currency?x=1") (handle (currency (request_u1 get tt))))
        one_cart
      ≡ (
        fulfilled (outcome shop (handle (currency (request_u1 get tt))) one_cart, t),
        (run shop (handle (currency (request_u1 get tt))) one_cart).1,
      ))
    × Records get
        (some "/api/currency?x=1")
        (outcome shop (handle (currency (request_u1 get tt))) one_cart)
        t
instrument_lem_example =
    instrument_lem shop get (some "/api/currency?x=1") (handle (currency (request_u1 get tt)))
      one_cart

target_of_data : target_of "/api/data?contextKeys=a" ≡ "/api/data"
unfolding target_of
target_of_data = refl
