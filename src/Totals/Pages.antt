-- ===== src/Totals/Pages.antt =====
-- The amounts that the order page and the cart page show.
use opentelemetry_demo_mb3r.Prelude.{
  ℤ, pos, ◌+ℤ◌, ◌*ℤ◌, String, ◌==◌, eq_iff, Bool-cases, ◌≢◌, ◌≡◌, ◌⊎◌, inl, inr, refl, ap, sym,
  sum_laws, *ℤ_distrib, *ℤ_swap, ◌-ℤ◌, ◌∙◌, List, [], ◌∷◌, map, All,
}
use opentelemetry_demo_mb3r.Proto.{Money}
use opentelemetry_demo_mb3r.Http.{ProductCartItem, ProductCheckoutItem}
use opentelemetry_demo_mb3r.Totals.{
  nanos_per_unit, nano_exceed, nano_rest, no_money, or_no_money, or_usd, add_line, items_total,
  order_total, item_total, sum_nanos, sum_units, cart_total,
}
use opentelemetry_demo_mb3r.Totals.Values.{
  IsShort-or_not, value, line_value, IsShort, carried, carried_short,
}

worth :
    (u n q : ℤ)
    → (u *ℤ q +ℤ nano_exceed (n *ℤ q)) *ℤ pos nanos_per_unit +ℤ nano_rest (n *ℤ q)
      ≡ u *ℤ pos nanos_per_unit *ℤ q
        +ℤ (nano_exceed (n *ℤ q) *ℤ pos nanos_per_unit +ℤ nano_rest (n *ℤ q))
worth u n q =
    rw (*ℤ_distrib (u *ℤ q) (nano_exceed (n *ℤ q)) (pos nanos_per_unit), *ℤ_swap u q nanos_per_unit)
      (omega sum_laws)

short_worth :
    (u n q : ℤ)
    → u *ℤ pos nanos_per_unit *ℤ q +ℤ (n *ℤ q -ℤ pos nanos_per_unit)
      ≡ (u *ℤ pos nanos_per_unit +ℤ n) *ℤ q -ℤ pos nanos_per_unit
short_worth u n q = rw (*ℤ_distrib (u *ℤ pos nanos_per_unit) n q) (omega sum_laws)

-- A line total is worth the cost of the line as often as its quantity says, unless its nanos are
-- negative and no multiple of a unit; then it is worth one unit less.
pub item_total_lem :
    (line : ProductCheckoutItem)
    → ((¬ IsShort ((or_no_money line.cost).nanos *ℤ line.item.quantity))
        × (value (item_total line) ≡ line_value line))
      ⊎ (IsShort ((or_no_money line.cost).nanos *ℤ line.item.quantity)
          × (value (item_total line) ≡ line_value line -ℤ pos nanos_per_unit))
unfolding item_total
item_total_lem line =
    let c = or_no_money line.cost in
    let q = line.item.quantity in
    let x = c.nanos *ℤ q in
    elim (IsShort-or_not x) [
      | inl h ↦ inl (
        h,
        worth c.units c.nanos q
            ∙ ap (λ v. c.units *ℤ pos nanos_per_unit *ℤ q +ℤ v) (carried x h)
            ∙ sym (*ℤ_distrib (c.units *ℤ pos nanos_per_unit) c.nanos q),
      )
      | inr h ↦ inr (
        h,
        worth c.units c.nanos q
            ∙ ap (λ v. c.units *ℤ pos nanos_per_unit *ℤ q +ℤ v) (carried_short x h)
            ∙ short_worth c.units c.nanos q,
      )
    ]

-- The line of the cart for the product of an order line.
abbrev pub cart_line : ProductCheckoutItem → ProductCartItem
cart_line line = line.item

sum_nanos-items_total :
    (acc : Money) (ls : List ProductCheckoutItem)
    → All (λ line. line.cost ≡ line.item.product.price_usd) ls
    → sum_nanos acc.nanos (map cart_line ls) ≡ (items_total acc ls).nanos
unfolding sum_nanos items_total
sum_nanos-items_total acc [] h = refl
sum_nanos-items_total acc (line ∷ ls) h =
    ap
      (λ p. sum_nanos (acc.nanos +ℤ (or_no_money p).nanos *ℤ line.item.quantity) (map cart_line ls))
      (sym h.0)
    ∙ sum_nanos-items_total (add_line acc line) ls h.1

sum_units-items_total :
    (acc : Money) (ls : List ProductCheckoutItem)
    → All (λ line. line.cost ≡ line.item.product.price_usd) ls
    → sum_units acc.units (map cart_line ls) ≡ (items_total acc ls).units
unfolding sum_units items_total
sum_units-items_total acc [] h = refl
sum_units-items_total acc (line ∷ ls) h =
    ap
      (λ p. sum_units (acc.units +ℤ (or_no_money p).units *ℤ line.item.quantity) (map cart_line ls))
      (sym h.0)
    ∙ sum_units-items_total (add_line acc line) ls h.1

or_usd-named : (code : String) → code ≢ "" → or_usd code ≡ code
or_usd-named code named = elim (Bool-cases (code == "")) [
  | inl e ↦ absurd (named ((eq_iff code "").0 e))
  | inr e ↦ rw e refl
]

-- If every line of an order cost the price that its product is shown with, and the shipping cost is
-- in the selected currency, then the cart page and the order page show the same total: the same
-- amount in the same currency.
pub cart_total-eq-order_total :
    (ls : List ProductCheckoutItem) (shipping_cost : Money) (selected_currency : String)
    → All (λ line. line.cost ≡ line.item.product.price_usd) ls
    → shipping_cost.currency_code ≡ selected_currency
    → selected_currency ≢ ""
    → cart_total (map cart_line ls) shipping_cost selected_currency ≡ order_total ls shipping_cost
unfolding cart_total order_total
cart_total-eq-order_total ls shipping_cost selected_currency h shipped named =
    let ns = sum_nanos-items_total no_money ls h in
    let us = sum_units-items_total no_money ls h in
    let code = sym (or_usd-named selected_currency named) ∙ ap or_usd (sym shipped) in
    λ i. record {
      units = us i +ℤ shipping_cost.units +ℤ nano_exceed (ns i +ℤ shipping_cost.nanos);
      nanos = nano_rest (ns i +ℤ shipping_cost.nanos);
      currency_code = code i;
    }
