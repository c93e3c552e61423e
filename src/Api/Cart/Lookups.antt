-- ===== src/Api/Cart/Lookups.antt =====
-- The products of a cart, looked up at the same time: src/frontend/pages/api/cart.ts, lines 19-29.
use opentelemetry_demo_mb3r.Prelude.{
  ℕ, String, ◌≡◌, ◌≢◌, List, ◌∷◌, ◌++◌, map, length, ◌≤◌, ◌<◌, ap, sym, ◌∙◌, inl, inr, arith,
}
use opentelemetry_demo_mb3r.Proto.{CartItem}
use opentelemetry_demo_mb3r.Calls.{Failure, Services}
use opentelemetry_demo_mb3r.Promise.{Promise, resolved, rejected, fulfilled, outcome}
use opentelemetry_demo_mb3r.Promise.All.{all}
use opentelemetry_demo_mb3r.Promise.Schedule.{IsReadOnly, Queries, play, play-all, play-ne-rejected}
use opentelemetry_demo_mb3r.Promise.Settled.{
  CallsAtMost, CallsAtMost-bind, Within-map, play-IsSettled, IsSettled-cases, turns,
}
use opentelemetry_demo_mb3r.Catalog.Counts.{get_product-CallsAtMost}
use opentelemetry_demo_mb3r.Http.{ProductCartItem}
use opentelemetry_demo_mb3r.Catalog
use opentelemetry_demo_mb3r.Catalog.Reads.{Queries-bind, get_product-Queries, map-Queries}
use opentelemetry_demo_mb3r.Api.Cart.{load_cart_item}

pub load_cart_item-Queries : (code : String) (item : CartItem) → Queries (load_cart_item code item)
unfolding load_cart_item
load_cart_item-Queries code item =
    Queries-bind (Catalog.get_product item.product_id code) _
      (get_product-Queries item.product_id code) (λ product. tt)

pub load_cart_item-CallsAtMost :
    (code : String) (item : CartItem) → CallsAtMost 2 (load_cart_item code item)
unfolding load_cart_item
load_cart_item-CallsAtMost code item =
    CallsAtMost-bind 2 0 2 (Catalog.get_product item.product_id code) _ (omega arith)
      (get_product-CallsAtMost item.product_id code) (λ product. tt)

same_values {ℓ} :
    {A : Type ℓ} {values shown : List A} → fulfilled values ≡ fulfilled shown → values ≡ shown
same_values h = cc

module _ {S : Type 0} (services : Services S) (is : List ℕ) (items : List CartItem) (code : String)
    (s : S) (shown : List ProductCartItem) where
  -- Over services whose queries change nothing: if answering the items one after the other gives the
  -- lines, then no order of the answers leads to a rejected item.
  pub load_cart_item-ne-rejected :
      (before after : List (Promise ProductCartItem)) (e : Failure)
      → IsReadOnly services
      → outcome services (all (map (load_cart_item code) items)) s ≡ fulfilled shown
      → (play services is (map (load_cart_item code) items) s).0 ≢ before ++ rejected e ∷ after
  load_cart_item-ne-rejected before after e readonly done =
      play-ne-rejected services is (map (load_cart_item code) items) s shown before after e readonly
        (map-Queries (load_cart_item code) items (load_cart_item-Queries code)) done

  -- Over services whose queries change nothing: if answering the items one after the other gives the
  -- lines, then every schedule that answers each item twice ends with every item resolved, with
  -- these lines.
  pub play-load_cart_item_enough :
      IsReadOnly services
      → ((i : ℕ) → i < length items → 2 ≤ turns is i)
      → outcome services (all (map (load_cart_item code) items)) s ≡ fulfilled shown
      → (play services is (map (load_cart_item code) items) s).0 ≡ map resolved shown
  play-load_cart_item_enough readonly twice done =
      let tasks = map (load_cart_item code) items in
      let settled = play-IsSettled services is tasks s (
        Within-map (load_cart_item code) 2 (turns is) items (load_cart_item-CallsAtMost code)
          twice) in
      elim (IsSettled-cases (play services is tasks s).0 settled) [
        | inl (values, e) ↦
            let found =
              play-all services is tasks s values readonly
                (map-Queries (load_cart_item code) items (load_cart_item-Queries code)) e in
            e ∙ ap (map resolved) (same_values (sym found ∙ done))
        | inr (before, e, after, h) ↦
            absurd (load_cart_item-ne-rejected before after e readonly done h)
      ]
