-- ===== src/Api/Cart/InTime.antt =====
-- What becomes of the products of a cart, whose calls are answered in any order:
-- src/frontend/pages/api/cart.ts, lines 19-29.
use opentelemetry_demo_mb3r.Prelude.{
  ℕ, ◌≤◌, ◌<◌, String, ◌≡◌, refl, sym, ap, ◌∙◌, subst, Option, some, List, [], ◌∷◌, map, length,
  Forall₂, inl, inr,
}
use opentelemetry_demo_mb3r.Proto.{CartItem, Product}
use opentelemetry_demo_mb3r.Calls.{Failure, Services}
use opentelemetry_demo_mb3r.Promise.{
  resolved, Outcome, fulfilled, failed, run, outcome, continue, run-bind,
}
use opentelemetry_demo_mb3r.Promise.Schedule.{IsReadOnly}
use opentelemetry_demo_mb3r.Promise.Settled.{Within-map, play-IsSettled, turns}
use opentelemetry_demo_mb3r.Promise.InTime.{
  IsOneOf, Agrees, AgreesSome, play_all, play_all-AgreesSome, play_all-IsSettled,
}
use opentelemetry_demo_mb3r.Http.{ProductCartItem}
use opentelemetry_demo_mb3r.Catalog
use opentelemetry_demo_mb3r.Catalog.Reads.{map-Queries}
use opentelemetry_demo_mb3r.Api.Cart.{load_cart_item}
use opentelemetry_demo_mb3r.Api.Cart.Contents.{line}
use opentelemetry_demo_mb3r.Api.Cart.Lookups.{load_cart_item-Queries, load_cart_item-CallsAtMost}

line_outcome : CartItem → Outcome Product → Outcome ProductCartItem
line_outcome item (fulfilled product) = fulfilled (line item product)
line_outcome item (failed e) = failed e

module _ {S : Type 0} (services : Services S) (code : String) (s : S) where
  abbrev pub found : CartItem → Outcome Product
  found item = outcome services (Catalog.get_product item.product_id code) s

  -- What a line is made of: the item of the cart, and its product.
  abbrev pub IsLine : CartItem → ProductCartItem → Type 0
  IsLine item shown =
      (shown.product_id ≡ item.product_id)
      × (shown.quantity ≡ item.quantity)
      × (found item ≡ fulfilled shown.product)

  continue-line :
      (item : CartItem) (x : Outcome Product × S)
      → (continue services (λ product. resolved (line item product)) x).0 ≡ line_outcome item x.0
  unfolding run line_outcome
  continue-line item (fulfilled product, t) = refl
  continue-line item (failed e, t) = refl

  outcome-load_cart_item :
      (item : CartItem)
      → outcome services (load_cart_item code item) s ≡ line_outcome item (found item)
  unfolding load_cart_item
  outcome-load_cart_item item =
      ap (λ r. r.0)
        (run-bind services (Catalog.get_product item.product_id code)
          (λ product. resolved (line item product)) s)
      ∙ continue-line item (run services (Catalog.get_product item.product_id code) s)

  abbrev loaded : List CartItem → List (Outcome ProductCartItem)
  loaded items = map (λ p. outcome services p s) (map (load_cart_item code) items)

  line_outcome-fulfilled :
      (item : CartItem) (o : Outcome Product) (shown : ProductCartItem)
      → found item ≡ o
      → line_outcome item o ≡ fulfilled shown
      → IsLine item shown
  unfolding line_outcome
  line_outcome-fulfilled item (failed e) shown h k = absurd (cc)
  line_outcome-fulfilled item (fulfilled product) shown h k =
      let same : line item product ≡ shown = cc in subst (IsLine item) same (refl, refl, h)

  loaded_lines :
      (items : List CartItem) (shown : List ProductCartItem)
      → loaded items ≡ map fulfilled shown
      → Forall₂ IsLine items shown
  loaded_lines [] [] h = Forall₂.nil
  loaded_lines [] (l ∷ shown) h = absurd (cc)
  loaded_lines (item ∷ items) [] h = absurd (cc)
  loaded_lines (item ∷ items) (l ∷ shown) h =
      let first : outcome services (load_cart_item code item) s ≡ fulfilled l = cc in
      let rest : loaded items ≡ map fulfilled shown = cc in
      Forall₂.cons
        (line_outcome-fulfilled item (found item) l refl
          (sym (outcome-load_cart_item item) ∙ first))
        (loaded_lines items shown rest)

  line_outcome_failed :
      (item : CartItem) (o : Outcome Product) (e : Failure)
      → line_outcome item o ≡ failed e
      → o ≡ failed e
  unfolding line_outcome
  line_outcome_failed item (fulfilled product) e h = absurd (cc)
  line_outcome_failed item (failed e') e h = cc

  loaded_failed :
      (items : List CartItem) (e : Failure)
      → IsOneOf (failed e) (loaded items)
      → (item : CartItem) × (IsOneOf item items) × (found item ≡ failed e)
  loaded_failed [] e m = absurd m
  loaded_failed (item ∷ items) e (inl h) = (
    item,
    inl refl,
    line_outcome_failed item (found item) e (sym (outcome-load_cart_item item) ∙ h),
  )
  loaded_failed (item ∷ items) e (inr m) =
      let (other, there, bad) = loaded_failed items e m in (other, inr there, bad)

  fulfilled-ne-failed : (p : Product) (e : Failure) → fulfilled p ≡ failed e → ⊥
  fulfilled-ne-failed p e h = absurd (cc)

  not_fulfilled :
      (item : CartItem) (e : Failure) {items : List CartItem} {shown : List ProductCartItem}
      → found item ≡ failed e
      → Forall₂ IsLine items shown
      → IsOneOf item items
      → ⊥
  not_fulfilled item e bad Forall₂.nil m = m
  not_fulfilled item e bad (Forall₂.cons {a = x} {b = l} here rest) (inl same) =
      fulfilled-ne-failed l.product e (sym here.2 ∙ ap found same ∙ bad)
  not_fulfilled item e bad (Forall₂.cons here rest) (inr m) = not_fulfilled item e bad rest m

  module _ (is : List ℕ) (items : List CartItem) where
    abbrev pub lookups : Option (Outcome (List ProductCartItem))
    lookups = play_all services is (map (load_cart_item code) items) s

    lookups-AgreesSome : IsReadOnly services → AgreesSome lookups (loaded items)
    lookups-AgreesSome readonly =
        play_all-AgreesSome services is (map (load_cart_item code) items) s readonly
          (map-Queries (load_cart_item code) items (load_cart_item-Queries code))

    -- Over services whose queries change nothing: if the calls for the items of a cart are answered in
    -- any order, and the lookups of the products are fulfilled in the end, then with a line for each
    -- item, in the order of the cart, that has its product identifier, its quantity and its product.
    pub lookups_fulfilled :
        (shown : List ProductCartItem)
        → IsReadOnly services
        → lookups ≡ some (fulfilled shown)
        → Forall₂ IsLine items shown
    lookups_fulfilled shown readonly h =
        loaded_lines items shown
          (subst (λ o. AgreesSome o (loaded items)) h (lookups-AgreesSome readonly))

    failure_of :
        (o : Outcome (List ProductCartItem)) (item : CartItem) (e : Failure)
        → IsOneOf item items
        → found item ≡ failed e
        → Agrees o (loaded items)
        → (e' : Failure) × (other : CartItem) × (o ≡ failed e')
          × (IsOneOf other items)
          × (found other ≡ failed e')
    failure_of (fulfilled shown) item e m bad h =
        absurd (not_fulfilled item e bad (loaded_lines items shown h) m)
    failure_of (failed e') item e m bad h =
        let (other, there, why) = loaded_failed items e' h in (e', other, refl, there, why)

    -- Over services whose queries change nothing: if the product of an item of a cart cannot be had,
    -- then, in whatever order the calls for the items are answered, twice for each item at least, the
    -- lookups are rejected with the failure of an item whose product cannot be had.
    pub lookups_failed :
        (item : CartItem) (e : Failure)
        → IsReadOnly services
        → ((i : ℕ) → i < length items → 2 ≤ turns is i)
        → IsOneOf item items
        → found item ≡ failed e
        → (e' : Failure) × (other : CartItem) × (lookups ≡ some (failed e'))
          × (IsOneOf other items)
          × (found other ≡ failed e')
    lookups_failed item e readonly twice m bad =
        let tasks = map (load_cart_item code) items in
        let settled = play-IsSettled services is tasks s (
          Within-map (load_cart_item code) 2 (turns is) items (load_cart_item-CallsAtMost code)
            twice) in
        let (o, done) = play_all-IsSettled services is tasks s settled in
        let (e', other, same, there, why) =
          failure_of o item e m bad
            (subst (λ v. AgreesSome v (loaded items)) done (lookups-AgreesSome readonly)) in
        (e', other, done ∙ ap some same, there, why)
