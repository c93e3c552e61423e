-- ===== src/Totals/Values.antt =====
-- What the totals of the order page are worth, in nanos.
use opentelemetry_demo_mb3r.Prelude.{
  ℕ, suc, ◌%◌, ℤ, pos, negsuc, pos_part, neg_part, ◌+ℤ◌, ◌-ℤ◌, ◌*ℤ◌, sub_ℕ_parts, int_laws,
  sum_laws, +ℤ_assoc, *ℤ_distrib, *ℤ_swap, ◌≡◌, refl, ap, ◌∙◌, ◌≢◌, ◌⊎◌, inl, inr, List, [], ◌∷◌,
}
use native.Mathlib.Decide.{ℕ_discrete}
use opentelemetry_demo_mb3r.Proto.{Money}
use opentelemetry_demo_mb3r.Http.{ProductCheckoutItem}
use opentelemetry_demo_mb3r.Totals.{
  nanos_per_unit, nano_exceed, nano_rest, no_money, or_no_money, add_line, items_total, total_nanos,
  order_total,
}

-- What an amount is worth, in nanos.
abbrev pub value : Money → ℤ
value m = m.units *ℤ pos nanos_per_unit +ℤ m.nanos

-- What a line is worth: its cost, as often as its quantity says.
abbrev pub line_value : ProductCheckoutItem → ℤ
line_value line = value (or_no_money line.cost) *ℤ line.item.quantity

pub lines_value : List ProductCheckoutItem → ℤ
lines_value [] = pos 0
lines_value (line ∷ ls) = line_value line +ℤ lines_value ls

value-add_line :
    (acc : Money) (line : ProductCheckoutItem)
    → value (add_line acc line) ≡ value acc +ℤ line_value line
unfolding add_line
value-add_line acc line =
    let c = or_no_money line.cost in
    let q = line.item.quantity in
    rw
      (
        *ℤ_distrib acc.units (c.units *ℤ q) (pos nanos_per_unit),
        *ℤ_swap c.units q nanos_per_unit,
        *ℤ_distrib (c.units *ℤ pos nanos_per_unit) c.nanos q,
      )
      (omega sum_laws)

value-items_total :
    (acc : Money) (ls : List ProductCheckoutItem)
    → value (items_total acc ls) ≡ value acc +ℤ lines_value ls
unfolding items_total lines_value
value-items_total acc [] = omega sum_laws
value-items_total acc (line ∷ ls) =
    value-items_total (add_line acc line) ls
    ∙ ap (λ v. v +ℤ lines_value ls) (value-add_line acc line)
    ∙ +ℤ_assoc (value acc) (line_value line) (lines_value ls)

no_value : value no_money ≡ pos 0
unfolding ◌+ℤ◌ ◌*ℤ◌
no_value = refl

-- A negative amount of nanos that is no multiple of a unit.
abbrev pub IsShort : ℤ → Type 0
IsShort (pos n) = ⊥
IsShort (negsuc n) = suc n % nanos_per_unit ≢ 0

not_short : (n : ℕ) → ¬ (suc n % nanos_per_unit ≢ 0) → suc n % nanos_per_unit ≡ 0
not_short n h = elim (ℕ_discrete (suc n % nanos_per_unit) 0) [ yes e ↦ e | no ne ↦ absurd (h ne) ]

pub carried : (x : ℤ) → ¬ IsShort x → nano_exceed x *ℤ pos nanos_per_unit +ℤ nano_rest x ≡ x
unfolding nano_exceed nano_rest
carried (pos n) h = omega int_laws
carried (negsuc n) h = omega (int_laws, sub_ℕ_parts 0 (suc n % nanos_per_unit), not_short n h)

pub carried_short :
    (x : ℤ)
    → IsShort x
    → nano_exceed x *ℤ pos nanos_per_unit +ℤ nano_rest x ≡ x -ℤ pos nanos_per_unit
unfolding nano_exceed nano_rest
carried_short (pos n) h = absurd h
carried_short (negsuc n) h = omega (int_laws, sub_ℕ_parts 0 (suc n % nanos_per_unit))

value-order_total :
    (ls : List ProductCheckoutItem) (shipping_cost : Money)
    → value (order_total ls shipping_cost)
      ≡ (items_total no_money ls).units *ℤ pos nanos_per_unit
        +ℤ shipping_cost.units *ℤ pos nanos_per_unit
        +ℤ (nano_exceed (total_nanos ls shipping_cost) *ℤ pos nanos_per_unit
            +ℤ nano_rest (total_nanos ls shipping_cost))
unfolding order_total
value-order_total ls shipping_cost =
    let x = total_nanos ls shipping_cost in
    rw
      (
        *ℤ_distrib ((items_total no_money ls).units +ℤ shipping_cost.units) (nano_exceed x)
            (pos nanos_per_unit),
        *ℤ_distrib (items_total no_money ls).units shipping_cost.units (pos nanos_per_unit),
      )
      (omega sum_laws)

pub IsShort-or_not : (x : ℤ) → (¬ IsShort x) ⊎ IsShort x
IsShort-or_not (pos n) = inl (λ h. h)
IsShort-or_not (negsuc n) = elim (ℕ_discrete (suc n % nanos_per_unit) 0) [
  | yes e ↦ inl (λ h. h e)
  | no ne ↦ inr ne
]

-- The order total is worth what the lines and the shipping are worth together, unless the sum of
-- their nanos is negative and no multiple of a unit; then it is worth one unit less.
pub order_total_lem :
    (ls : List ProductCheckoutItem) (shipping_cost : Money)
    → ((¬ IsShort (total_nanos ls shipping_cost))
        × (value (order_total ls shipping_cost) ≡ lines_value ls +ℤ value shipping_cost))
      ⊎ (IsShort (total_nanos ls shipping_cost)
          × (value (order_total ls shipping_cost)
              ≡ lines_value ls +ℤ value shipping_cost -ℤ pos nanos_per_unit))
order_total_lem ls shipping_cost =
    let x = total_nanos ls shipping_cost in
    let whole = value-items_total no_money ls ∙ ap (λ v. v +ℤ lines_value ls) no_value in
    elim (IsShort-or_not x) [
      | inl h ↦ inl (
        h,
        rw (value-order_total ls shipping_cost, carried x h)
            (omega (sum_laws, ap pos_part whole, ap neg_part whole)),
      )
      | inr h ↦ inr (
        h,
        rw (value-order_total ls shipping_cost, carried_short x h)
            (omega (sum_laws, ap pos_part whole, ap neg_part whole)),
      )
    ]
