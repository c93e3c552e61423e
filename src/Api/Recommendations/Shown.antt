-- ===== src/Api/Recommendations/Shown.antt =====
-- The answers of src/frontend/pages/api/recommendations.ts, and what it asks the service.
use mathlib.Core.Option
use Prim.Native.Char.{Char}
use Prim.Native.String
use opentelemetry_demo_mb3r.Prelude.{
  ℕ, ◌≤◌, String, ◌≡◌, refl, ap, Forall₂-length, ◌∙◌, some, List, [], ◌∷◌, map, take, length,
  length-take, All, Forall₂, Forall₂-map, arith,
}
use opentelemetry_demo_mb3r.Proto.{Product}
use opentelemetry_demo_mb3r.Calls.{Call, response, Services}
use opentelemetry_demo_mb3r.Promise.{
  fulfilled, run, first_call, run-waiting, run-resolved, run-bind_fulfilled,
}
use opentelemetry_demo_mb3r.Promise.All.{all, run-all_fulfilled}
use opentelemetry_demo_mb3r.Http.{get, text, Request, products}
use opentelemetry_demo_mb3r.Gateways.Recommendations.{characters, encoded_ids}
use opentelemetry_demo_mb3r.Catalog
use opentelemetry_demo_mb3r.Catalog.Prices.{IsSold, run-get_product}
use opentelemetry_demo_mb3r.Api.Recommendations.{
  or_empty, recommendations_switch, recommendations_handler,
}

module _ (req : Request (Unit {0})) where
  abbrev pub session_of : String
  session_of = Option.get_or req.query.session_id ""

  abbrev pub currency_of : String
  currency_of = Option.get_or req.query.currency_code ""

  abbrev pub question : Call
  question = Call.list_recommendations session_of (encoded_ids (or_empty req.query.product_ids))

at_most_four : (ids : List String) {n : ℕ} → length (take 4 ids) ≡ n → n ≤ 4
at_most_four ids e = omega (arith, length-take {0} 4 ids)

-- If the recommendation service answers and the catalog has the first four of the products that it
-- names, then a GET answers 200 with these products, in the order of the service, each as it is
-- shown in the visitor's currency.
pub run-recommendations :
    {S : Type 0} (services : Services S) (s : S) (req : Request (Unit {0})) (ids : List String)
    (shown : List Product)
    → req.method ≡ get
    → services (question req) s ≡ (response ids, s)
    → Forall₂ (λ id product. IsSold services s (currency_of req) id product) (take 4 ids) shown
    → (run services (recommendations_handler req) s
        ≡ (fulfilled (record { status_code = 200; body = some (products shown) }), s))
      × (length shown ≤ 4)
unfolding recommendations_handler encoded_ids
run-recommendations services s req ids shown method answered sold =
    let code = currency_of req in
    (
      ap (λ m. run services (recommendations_switch m req) s) method
          ∙ run-waiting services (question req) _ s answered
          ∙ run-bind_fulfilled services (all (map (λ id. Catalog.get_product id code) (take 4 ids)))
              _ s
              (run-all_fulfilled services (λ id. Catalog.get_product id code) s
                (Forall₂-map (λ id p. run-get_product services s code id p) sold))
          ∙ run-resolved services _ s,
      at_most_four ids (Forall₂-length sold),
    )

characters-All : (s : String) → All (λ id. (c : Char) × (id ≡ String.◌∷◌ c "")) (characters s)
characters-All String.[] = tt
characters-All (String.◌∷◌ c s) = ((c, refl), characters-All s)

-- The texts one behind the other.
abbrev pub concat_texts : List String → String
concat_texts [] = ""
concat_texts (s ∷ ss) = String.◌++◌ s (concat_texts ss)

concat_texts-characters : (s : String) → concat_texts (characters s) ≡ s
concat_texts-characters String.[] = refl
concat_texts-characters (String.◌∷◌ c s) =
    String.append.cons c "" (concat_texts (characters s))
    ∙ ap (String.◌∷◌ c)
        (String.append.nil (concat_texts (characters s)) ∙ concat_texts-characters s)

abbrev pub IsOneCharacter : String → Type 0
IsOneCharacter id = (c : Char) × (id ≡ String.◌∷◌ c "")

-- A text of product identifiers reaches the recommendation service as its characters: the first
-- call of the GET has identifiers of one character each, which one behind the other are the text.
pub recommendations_of_text :
    (req : Request (Unit {0})) (joined : String)
    → req.method ≡ get
    → req.query.product_ids ≡ text joined
    → (asked : List String) × (first_call (recommendations_handler req)
        ≡ some (Call.list_recommendations (session_of req) asked))
      × All IsOneCharacter asked
      × (concat_texts asked ≡ joined)
unfolding recommendations_handler encoded_ids first_call
recommendations_of_text req joined method ids = (
  characters joined,
  ap (λ m. first_call (recommendations_switch m req)) method
      ∙ ap (λ v. some (Call.list_recommendations (session_of req) (encoded_ids (or_empty v)))) ids,
  characters-All joined,
  concat_texts-characters joined,
)
