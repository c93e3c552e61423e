-- ===== src/Catalog/Reads.antt =====
-- The lookups of src/frontend/services/ProductCatalog.service.ts as tasks of a `Promise.all`.
use opentelemetry_demo_mb3r.Prelude.{
  ℕ, String, ◌≡◌, some, List, map, All, Bool-cases, inl, inr, [], ◌∷◌,
}
use opentelemetry_demo_mb3r.Proto.{Product}
use opentelemetry_demo_mb3r.Calls.{Callback, error, response, Services}
use opentelemetry_demo_mb3r.Promise.{
  Promise, resolved, rejected, waiting, fulfilled, ◌>>=◌, settle_callback, outcome,
}
use opentelemetry_demo_mb3r.Promise.All.{all}
use opentelemetry_demo_mb3r.Promise.Schedule.{IsReadOnly, Queries, play, play-all}
use opentelemetry_demo_mb3r.Catalog
use opentelemetry_demo_mb3r.Catalog.{needs_conversion, get_product_price, price_product}

pub Queries-bind {ℓ} :
    {A B : Type ℓ} (p : Promise A) (f : A → Promise B)
    → Queries p
    → ((a : A) → Queries (f a))
    → Queries (p >>= f)
Queries-bind (resolved a) f q h = h a
Queries-bind (rejected e) f q h = tt
Queries-bind (waiting c k) f q h = (q.0, λ r. Queries-bind (k r) f (q.1 r) h)

pub Queries-settle_callback {ℓ} : {A : Type ℓ} (r : Callback A) → Queries (settle_callback r)
Queries-settle_callback (error e) = tt
Queries-settle_callback (response a) = tt

price_product-Queries : (code : String) (kept : Product) → Queries (price_product code kept)
unfolding price_product
price_product-Queries code kept = elim (Bool-cases (needs_conversion code)) [
  | inl foreign ↦ rw foreign (
    tt,
    λ r.
        Queries-bind (settle_callback r >>= λ m. resolved (some m)) _
          (Queries-bind (settle_callback r) _ (Queries-settle_callback r) (λ m. tt)) (λ price. tt),
  )
  | inr home ↦ rw home tt
]

pub get_product-Queries : (id code : String) → Queries (Catalog.get_product id code)
unfolding Catalog.get_product
get_product-Queries id code = (
  tt,
  λ r.
      Queries-bind (settle_callback r) (price_product code) (Queries-settle_callback r)
        (price_product-Queries code),
)

pub map-Queries {ℓ} :
    {A B : Type ℓ} (f : A → Promise B) (xs : List A)
    → ((a : A) → Queries (f a))
    → All Queries (map f xs)
map-Queries f [] h = tt
map-Queries f (a ∷ xs) h = (h a, map-Queries f xs h)

-- Over services whose queries change nothing: if products are looked up at the same time, and
-- their calls are answered in any order until every task is resolved, then the products are those
-- that answering the tasks one after the other gives, in the order of their identifiers.
pub play-get_product :
    {S : Type 0} (services : Services S) (is : List ℕ) (ids : List String) (code : String) (s : S)
    (shown : List Product)
    → IsReadOnly services
    → (play services is (map (λ id. Catalog.get_product id code) ids) s).0 ≡ map resolved shown
    → outcome services (all (map (λ id. Catalog.get_product id code) ids)) s ≡ fulfilled shown
play-get_product services is ids code s shown readonly settled =
    play-all services is (map (λ id. Catalog.get_product id code) ids) s shown readonly
      (map-Queries (λ id. Catalog.get_product id code) ids (λ id. get_product-Queries id code))
      settled
