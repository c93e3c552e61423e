-- ===== src/Catalog/Prices.antt =====
-- The prices of src/frontend/services/ProductCatalog.service.ts, and the calls that they cost.
use opentelemetry_demo_mb3r.Prelude.{
  String, ◌≡◌, refl, ap, ◌∙◌, ◌≢◌, ◌⊎◌, inl, inr, true, false, List, [], ◌∷◌, some, arith, eq_iff,
  ◌||◌, Forall₂-map, ◌==◌, Forall₂, Bool-cases, if◌then◌else◌,
}
use opentelemetry_demo_mb3r.Proto.{Money, Product}
use opentelemetry_demo_mb3r.Calls.{Call, Callback, response, error, Services}
use opentelemetry_demo_mb3r.Promise.{
  resolved, settle_callback, fulfilled, ◌>>=◌, run, calls, run-waiting, run-resolved,
}
use opentelemetry_demo_mb3r.Promise.All.{run-all_fulfilled}
use opentelemetry_demo_mb3r.Catalog
use opentelemetry_demo_mb3r.Catalog.{needs_conversion, get_product_price, price_product}

-- A currency in which prices are not kept: neither the default one nor no currency.
abbrev pub IsForeign : String → Type 0
IsForeign code = (code ≢ "") × (code ≢ "USD")

needs_conversion-IsForeign : (code : String) → IsForeign code → needs_conversion code ≡ true
unfolding needs_conversion
needs_conversion-IsForeign code h = ground (arith, eq_iff code "", eq_iff code "USD")

needs_conversion-home :
    (code : String) → (code ≡ "") ⊎ (code ≡ "USD") → needs_conversion code ≡ false
unfolding needs_conversion
needs_conversion-home code h = ground (arith, eq_iff code "", eq_iff code "USD")

-- The conversions that showing a product takes.
abbrev pub conversions : String → Callback Product → List Call
conversions code (error e) = []
conversions code (response kept) =
    if code == "" || code == "USD" then [] else Call.convert kept.price_usd code ∷ []

module _ {S : Type 0} (services : Services S) (s : S) where
  -- `shown` is the product `kept` with its price in the currency `code`.
  abbrev pub IsShown : String → Product → Product → Type 0
  IsShown code kept shown =
      (((code ≡ "") ⊎ (code ≡ "USD")) × (shown ≡ kept))
      ⊎ (IsForeign code
          × ((m : Money) × (services (Call.convert kept.price_usd code) s ≡ (response m, s))
              × (shown ≡ record kept { price_usd = some m })))

  -- The catalog has the product, and this is how it is shown.
  abbrev pub IsSold : String → String → Product → Type 0
  IsSold code id shown =
      (kept : Product) × (services (Call.get_product id) s ≡ (response kept, s))
      × IsShown code kept shown

  run-price_product :
      (code : String) (kept shown : Product)
      → IsShown code kept shown
      → run services (price_product code kept) s ≡ (fulfilled shown, s)
  unfolding price_product
  run-price_product code kept shown (inl (home, same)) =
      rw (needs_conversion-home code home, same) (run-resolved services kept s)
  run-price_product code kept shown (inr (foreign, (m, answered, same))) =
      rw (needs_conversion-IsForeign code foreign, same)
        (run-waiting services (Call.convert kept.price_usd code) _ s answered
          ∙ run-resolved services (record kept { price_usd = some m }) s)

  pub run-get_product :
      (code id : String) (shown : Product)
      → IsSold code id shown
      → run services (Catalog.get_product id code) s ≡ (fulfilled shown, s)
  unfolding Catalog.get_product
  run-get_product code id shown (kept, found, as_shown) =
      run-waiting services (Call.get_product id) _ s found
      ∙ run-price_product code kept shown as_shown

  -- If the conversion of every price is answered and leaves the services as they are, the list of
  -- products is the catalog's, in its order, each as it is shown in the currency.
  pub run-list_products :
      (code : String) {kept shown : List Product}
      → services Call.list_products s ≡ (response kept, s)
      → Forall₂ (IsShown code) kept shown
      → run services (Catalog.list_products code) s ≡ (fulfilled shown, s)
  unfolding Catalog.list_products
  run-list_products code found as_shown =
      run-waiting services Call.list_products _ s found
      ∙ run-all_fulfilled services (price_product code) s
          (Forall₂-map (λ a b. run-price_product code a b) as_shown)

  converted_calls :
      (kept : Product) (r : Callback Money) (s : S)
      → calls services
          (settle_callback r >>= (λ m. resolved (some m)) >>= λ price.
            resolved (record kept { price_usd = price }))
          s
        ≡ []
  unfolding calls
  converted_calls kept (error e) s = refl
  converted_calls kept (response m) s = refl

  settled_calls :
      (code : String) (r : Callback Product)
      → calls services (settle_callback r >>= price_product code) s ≡ conversions code r
  unfolding price_product calls needs_conversion
  settled_calls code (error e) = refl
  settled_calls code (response kept) = elim (Bool-cases (code == "")) [
    | inl a ↦ rw a
    | inr a ↦ elim (Bool-cases (code == "USD")) [
      | inl b ↦ rw (a, b)
      | inr b ↦
          rw (a, b) (ap (λ cs. Call.convert kept.price_usd code ∷ cs) (converted_calls kept _ _))
    ]
  ]

-- A product takes one call of the catalog and, if it was found and the currency is a foreign one,
-- then one conversion of its price; no other call is made, whatever is answered.
pub calls-get_product :
    {S : Type 0} (services : Services S) (code id : String) (s : S)
    → calls services (Catalog.get_product id code) s
      ≡ Call.get_product id ∷ conversions code (services (Call.get_product id) s).0
unfolding Catalog.get_product calls
calls-get_product services code id s =
    let (r, s') = services (Call.get_product id) s in
    ap (λ cs. Call.get_product id ∷ cs) (settled_calls services s' code r)
