-- ===== src/ReviewService.antt =====
-- src/frontend/services/ProductReview.service.ts
use opentelemetry_demo_mb3r.Prelude.{String, List}
use opentelemetry_demo_mb3r.Proto.{ProductReview}
use opentelemetry_demo_mb3r.Promise.{Promise, resolved, ◌>>=◌}
use opentelemetry_demo_mb3r.Gateways

unfoldable pub get_product_reviews : String → Promise (List ProductReview)
unfolding Gateways.ProductReview.get_product_reviews
get_product_reviews id =
    Gateways.ProductReview.get_product_reviews id >>= λ product_reviews. resolved product_reviews

unfoldable pub get_average_product_review_score : String → Promise String
unfolding Gateways.ProductReview.get_average_product_review_score
get_average_product_review_score id =
    Gateways.ProductReview.get_average_product_review_score id >>= λ average_score.
    resolved average_score

unfoldable pub ask_product_ai_assistant : String → String → Promise String
unfolding Gateways.ProductReview.ask_product_ai_assistant
ask_product_ai_assistant id question =
    Gateways.ProductReview.ask_product_ai_assistant id question >>= λ response. resolved response
