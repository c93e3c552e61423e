-- ===== src/Gateways/Recommendations.antt =====
-- src/frontend/gateways/rpc/Recommendations.gateway.ts, with the loop by which the stub writes the
-- identifiers into the message (`for (const v of message.productIds)` in
-- src/frontend/protos/demo.ts): over an array it takes the elements, over a text its characters.
use opentelemetry_demo_mb3r.Prelude.{String, List, [], ◌∷◌}
use opentelemetry_demo_mb3r.Calls.{Call}
use opentelemetry_demo_mb3r.Http.{QueryValue, undefined, text, texts}
use opentelemetry_demo_mb3r.Promise.{Promise, request}

abbrev pub characters : String → List String
characters String.[] = []
characters (String.◌∷◌ c s) = String.◌∷◌ c "" ∷ characters s

unfoldable pub encoded_ids : QueryValue → List String
encoded_ids undefined = []
encoded_ids (text s) = characters s
encoded_ids (texts ids) = ids

-- The field `productIds` of the answer.
unfoldable pub list_recommendations : String → QueryValue → Promise (List String)
unfolding encoded_ids
list_recommendations user_id product_ids =
    request (Call.list_recommendations user_id (encoded_ids product_ids))
