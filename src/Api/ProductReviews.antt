-- ===== src/Api/ProductReviews.antt =====
-- src/frontend/pages/api/product-reviews/[productId]/index.ts,
-- src/frontend/pages/api/product-reviews-avg-score/[productId]/index.ts and
-- src/frontend/pages/api/product-ask-ai-assistant/[productId]/index.ts
use mathlib.Core.Option
use opentelemetry_demo_mb3r.Prelude.{String}
use opentelemetry_demo_mb3r.Promise.{Promise, resolved, ◌>>=◌}
use opentelemetry_demo_mb3r.Http.{
  Method, get, post, Request, reviews, string, empty, Response, fresh, status, send,
}
use opentelemetry_demo_mb3r.ReviewService

unfoldable pub reviews_switch : Method → Request (Unit {0}) → Promise Response
unfolding ReviewService.get_product_reviews
reviews_switch get req =
    ReviewService.get_product_reviews (Option.get_or req.query.product_id "") >>= λ found.
    resolved (send (reviews found) (status 200 fresh))
reviews_switch _ req = resolved (send empty (status 405 fresh))

unfoldable pub reviews_handler : Request (Unit {0}) → Promise Response
unfolding reviews_switch
reviews_handler req = reviews_switch req.method req

unfoldable pub average_score_switch : Method → Request (Unit {0}) → Promise Response
unfolding ReviewService.get_average_product_review_score
average_score_switch get req =
    ReviewService.get_average_product_review_score (Option.get_or req.query.product_id "")
    >>= λ score. resolved (send (string score) (status 200 fresh))
average_score_switch _ req = resolved (send empty (status 405 fresh))

unfoldable pub average_score_handler : Request (Unit {0}) → Promise Response
unfolding average_score_switch
average_score_handler req = average_score_switch req.method req

-- The body holds the question.
unfoldable pub ask_switch : Method → Request String → Promise Response
unfolding ReviewService.ask_product_ai_assistant
ask_switch post req =
    ReviewService.ask_product_ai_assistant (Option.get_or req.query.product_id "") req.body
    >>= λ answer. resolved (send (string answer) (status 200 fresh))
ask_switch _ req = resolved (send empty (status 405 fresh))

unfoldable pub ask_handler : Request String → Promise Response
unfolding ask_switch
ask_handler req = ask_switch req.method req
