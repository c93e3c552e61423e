-- ===== src/Catalog/Counts.antt =====
-- How many calls a product of src/frontend/services/ProductCatalog.service.ts takes at most.
use opentelemetry_demo_mb3r.Prelude.{String, some, Bool-cases, inl, inr, arith}
use opentelemetry_demo_mb3r.Proto.{Product}
use opentelemetry_demo_mb3r.Calls.{Callback, error, response}
use opentelemetry_demo_mb3r.Promise.{resolved, ◌>>=◌, settle_callback}
use opentelemetry_demo_mb3r.Promise.Settled.{CallsAtMost, CallsAtMost-bind}
use opentelemetry_demo_mb3r.Catalog
use opentelemetry_demo_mb3r.Catalog.{needs_conversion, get_product_price, price_product}

settle_callback-CallsAtMost {ℓ} : {A : Type ℓ} (r : Callback A) → CallsAtMost 0 (settle_callback r)
settle_callback-CallsAtMost (error e) = tt
settle_callback-CallsAtMost (response a) = tt

price_product-CallsAtMost :
    (code : String) (kept : Product) → CallsAtMost 1 (price_product code kept)
unfolding price_product
price_product-CallsAtMost code kept = elim (Bool-cases (needs_conversion code)) [
  | inl foreign ↦ rw foreign (λ r.
      CallsAtMost-bind 0 0 0 (settle_callback r >>= λ m. resolved (some m)) _ (omega arith)
        (CallsAtMost-bind 0 0 0 (settle_callback r) _ (omega arith) (settle_callback-CallsAtMost r)
          (λ m. tt))
        (λ price. tt))
  | inr home ↦ rw home tt
]

pub get_product-CallsAtMost : (id code : String) → CallsAtMost 2 (Catalog.get_product id code)
unfolding Catalog.get_product
get_product-CallsAtMost id code = λ r.
    CallsAtMost-bind 0 1 1 (settle_callback r) (price_product code) (omega arith)
      (settle_callback-CallsAtMost r) (price_product-CallsAtMost code)
