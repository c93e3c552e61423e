-- ===== src/Gateways/ProductReview.antt =====
-- src/frontend/gateways/rpc/ProductReview.gateway.ts
use opentelemetry_demo_mb3r.Prelude.{String, List}
use opentelemetry_demo_mb3r.Proto.{ProductReview}
use opentelemetry_demo_mb3r.Calls.{Call}
use opentelemetry_demo_mb3r.Promise.{Promise, request}

unfoldable pub get_product_reviews : String → Promise (List ProductReview)
get_product_reviews product_id = request (Call.get_product_reviews product_id)

unfoldable pub get_average_product_review_score : String → Promise String
get_average_product_review_score product_id =
    request (Call.get_average_product_review_score product_id)

unfoldable pub ask_product_ai_assistant : String → String → Promise String
ask_product_ai_assistant product_id question =
    request (Call.ask_product_ai_assistant product_id question)
