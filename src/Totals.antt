-- ===== src/Totals.antt =====
-- Sums of money on the pages: the order total and the line totals of
-- src/frontend/pages/cart/checkout/[orderId]/index.tsx, and the cart total of
-- src/frontend/components/CartItems/CartItems.tsx. JavaScript's numbers are integers here: up to
-- 2^53 sums and products are exact, and so is the floor of a quotient by 10^9.
pub mod Values
pub mod Pages
use opentelemetry_demo_mb3r.Prelude.{
  ℕ, suc, ◌/◌, ◌%◌, ℤ, pos, negsuc, sub_ℕ, ◌+ℤ◌, ◌*ℤ◌, String, Option, none, some, List, [], ◌∷◌,
  ◌==◌, if◌then◌else◌,
}
use opentelemetry_demo_mb3r.Proto.{Money, Product}
use opentelemetry_demo_mb3r.Http.{ProductCartItem, ProductCheckoutItem}

abbrev pub nanos_per_unit : ℕ
nanos_per_unit = 1000000000

-- `Math.floor(nanos / 1000000000)`.
unfoldable pub nano_exceed : ℤ → ℤ
nano_exceed (pos n) = pos (n / nanos_per_unit)
nano_exceed (negsuc n) = negsuc (n / nanos_per_unit)

-- `nanos % 1000000000`: the remainder has the sign of the dividend.
unfoldable pub nano_rest : ℤ → ℤ
nano_rest (pos n) = pos (n % nanos_per_unit)
nano_rest (negsuc n) = sub_ℕ 0 (suc n % nanos_per_unit)

abbrev pub no_money : Money
no_money = record { units = pos 0; nanos = pos 0; currency_code = "USD" }

-- A default for `undefined`, and `code || 'USD'`.
abbrev pub or_no_money : Option Money → Money
or_no_money none = no_money
or_no_money (some m) = m

abbrev pub or_usd : String → String
or_usd code = if code == "" then "USD" else code

-- The callback of `items.reduce`.
unfoldable pub add_line : Money → ProductCheckoutItem → Money
add_line acc line =
    let cost = or_no_money line.cost in
    record {
      units = acc.units +ℤ cost.units *ℤ line.item.quantity;
      nanos = acc.nanos +ℤ cost.nanos *ℤ line.item.quantity;
      currency_code = or_usd cost.currency_code;
    }

unfoldable pub items_total : Money → List ProductCheckoutItem → Money
unfolding add_line
items_total acc [] = acc
items_total acc (line ∷ ls) = items_total (add_line acc line) ls

abbrev pub total_nanos : List ProductCheckoutItem → Money → ℤ
total_nanos ls shipping_cost = (items_total no_money ls).nanos +ℤ shipping_cost.nanos

-- `orderTotal`; `shippingCost` has its default already.
unfoldable pub order_total : List ProductCheckoutItem → Money → Money
unfolding items_total nano_exceed nano_rest
order_total ls shipping_cost = record {
  units =
      (items_total no_money ls).units
      +ℤ shipping_cost.units
      +ℤ nano_exceed (total_nanos ls shipping_cost);
  nanos = nano_rest (total_nanos ls shipping_cost);
  currency_code = or_usd shipping_cost.currency_code;
}

-- `itemTotal` of a line.
unfoldable pub item_total : ProductCheckoutItem → Money
unfolding nano_exceed nano_rest
item_total line =
    let cost = or_no_money line.cost in
    record {
      units = cost.units *ℤ line.item.quantity +ℤ nano_exceed (cost.nanos *ℤ line.item.quantity);
      nanos = nano_rest (cost.nanos *ℤ line.item.quantity);
      currency_code = or_usd cost.currency_code;
    }

-- The callbacks of the two `productList.reduce` of the cart.
unfoldable pub sum_nanos : ℤ → List ProductCartItem → ℤ
sum_nanos acc [] = acc
sum_nanos acc (line ∷ ls) =
    sum_nanos (acc +ℤ (or_no_money line.product.price_usd).nanos *ℤ line.quantity) ls

unfoldable pub sum_units : ℤ → List ProductCartItem → ℤ
sum_units acc [] = acc
sum_units acc (line ∷ ls) =
    sum_units (acc +ℤ (or_no_money line.product.price_usd).units *ℤ line.quantity) ls

-- `total` of the cart.
unfoldable pub cart_total : List ProductCartItem → Money → String → Money
unfolding sum_nanos sum_units nano_exceed nano_rest
cart_total product_list shipping_cost selected_currency =
    let nano_sum = sum_nanos (pos 0) product_list +ℤ shipping_cost.nanos in
    record {
      units = sum_units (pos 0) product_list +ℤ shipping_cost.units +ℤ nano_exceed nano_sum;
      nanos = nano_rest nano_sum;
      currency_code = selected_currency;
    }
