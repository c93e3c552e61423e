-- ===== src/Tests/Pages.antt =====
-- The totals and the review statistics at concrete inputs.
use native.Mathlib.Nat.{mod-lt, div-add-mod}
use opentelemetry_demo_mb3r.Prelude.{
  eq_iff, true, false, ◌⊎◌, if◌then◌else◌, ℕ, ◌<◌, ◌≤◌, ◌*◌, ◌+◌, ◌/◌, ◌%◌, pos, negsuc, ◌+ℤ◌, ◌-ℤ◌,
  ◌*ℤ◌, length, map, String, ◌≡◌, refl, none, some, List, [], ◌∷◌, ◌⊎◌, ltb, ◌==◌, arith,
}
use opentelemetry_demo_mb3r.Proto.{Money, ProductReview}
use opentelemetry_demo_mb3r.Http.{ProductCheckoutItem}
use opentelemetry_demo_mb3r.Fixtures.{ten_dollars, lens_kit}
use opentelemetry_demo_mb3r.Totals.{nanos_per_unit, no_money, total_nanos, order_total, cart_total}
use opentelemetry_demo_mb3r.Totals.Values.{value, lines_value, IsShort, order_total_lem}
use opentelemetry_demo_mb3r.Totals.Pages.{cart_line, cart_total-eq-order_total}
use opentelemetry_demo_mb3r.Reviews.{
  Rounded, integer, not_a_number, distribution, Percents, total, floored, normalized_percents,
  review_percents,
}
use opentelemetry_demo_mb3r.Reviews.Loop.{at}
use opentelemetry_demo_mb3r.Reviews.Percentages.{normalized_percents_lem}
use opentelemetry_demo_mb3r.Reviews.Remainder.{normalized_percents_fair}
use opentelemetry_demo_mb3r.Reviews.Distribution.{
  numeric, distribution_lem, review_percents_lem, review_percents_throws,
}

-- Three lens kits at 10.50, and a refund of two dollars, in nanos.
abbrev three_kits : ProductCheckoutItem
three_kits = record {
  cost = some ten_dollars;
  item = record { product_id = "L9"; quantity = pos 3; product = lens_kit };
}

abbrev refund : Money
refund = record { currency_code = "USD"; units = pos 0; nanos = negsuc 1999999999 }

order_total_lem_example :
    ((¬ IsShort (total_nanos (three_kits ∷ []) refund))
      × (value (order_total (three_kits ∷ []) refund)
          ≡ lines_value (three_kits ∷ []) +ℤ value refund))
    ⊎ (IsShort (total_nanos (three_kits ∷ []) refund)
        × (value (order_total (three_kits ∷ []) refund)
            ≡ lines_value (three_kits ∷ []) +ℤ value refund -ℤ pos nanos_per_unit))
order_total_lem_example = order_total_lem (three_kits ∷ []) refund

-- With the refund the total is 29 - 0.50, where 29.50 is due.
order_total_short :
    ((order_total (three_kits ∷ []) refund).units ≡ pos 29)
    × ((order_total (three_kits ∷ []) refund).nanos ≡ negsuc 499999999)
unfolding order_total ◌+ℤ◌ ◌*ℤ◌
order_total_short = (refl, refl)

cart_total-eq-order_total_example :
    cart_total (map cart_line (three_kits ∷ [])) no_money "USD"
    ≡ order_total (three_kits ∷ []) no_money
cart_total-eq-order_total_example =
    cart_total-eq-order_total (three_kits ∷ []) no_money "USD" (refl, tt) refl
      (λ h. ground (arith, eq_iff "USD" ""))

-- Shares of a hundred without rounding errors.
exact_low : (c n : ℕ) → 0 < n → c ≤ n → n * (100 * c / n) ≤ 100 * c
exact_low c n h _ = omega (arith, div-add-mod (100 * c) n, mod-lt (100 * c) h)

exact_high : (c n : ℕ) → 0 < n → c ≤ n → 100 * c ≤ n * (100 * c / n) + n
exact_high c n h _ = omega (arith, div-add-mod (100 * c) n, mod-lt (100 * c) h)

less_through : (a b c : ℕ) → ltb a c ≡ true → (ltb b c ≡ true) ⊎ (ltb a b ≡ true)
less_through a b c h = ground arith

exact_asym :
    (c d n : ℕ)
    → 0 < n
    → ltb (100 * d % n) (100 * c % n) ≡ true
    → ltb (100 * c % n) (100 * d % n) ≡ false
exact_asym c d n h e = ground arith

exact_through :
    (c d e n : ℕ)
    → 0 < n
    → ltb (100 * e % n) (100 * c % n) ≡ true
    → (ltb (100 * d % n) (100 * c % n) ≡ true) ⊎ (ltb (100 * e % n) (100 * d % n) ≡ true)
exact_through c d e n h l = less_through (100 * e % n) (100 * d % n) (100 * c % n) l

abbrev exact : Percents
exact = record {
  floor_percent = λ c n. 100 * c / n;
  frac_gt = λ c d n. ltb (100 * d % n) (100 * c % n);
  floor_low = exact_low;
  floor_high = exact_high;
  frac_gt_asym = exact_asym;
  frac_gt_through = exact_through;
}

-- Scores of one digit; every other text is no number.
abbrev digit : String → Rounded
digit text =
    if text == "5" then integer (pos 5) else if text == "4" then integer (pos 4) else not_a_number

abbrev review : String → ProductReview
review score = record { username = "u1"; description = ""; score = score }

abbrev three_scores : List ProductReview
three_scores = review "5" ∷ review "4" ∷ review "4" ∷ []

all_numeric : numeric digit three_scores ≡ length three_scores
unfolding numeric opentelemetry_demo_mb3r.Reviews.clamp
all_numeric = refl

distribution_lem_example :
    (total (distribution digit three_scores) ≡ numeric digit three_scores)
    × (length (distribution digit three_scores) ≡ 5)
distribution_lem_example = distribution_lem digit three_scores

normalized_percents_lem_example :
    (percents : List ℕ) × (normalized_percents exact 3 (0 ∷ 0 ∷ 0 ∷ 2 ∷ 1 ∷ []) ≡ some percents)
    × (total percents ≡ 100)
    × (length percents ≡ 5)
    × ((j : ℕ)
        → (at (0 ∷ 0 ∷ 0 ∷ 66 ∷ 33 ∷ []) j ≤ at percents j)
          × (at percents j ≤ at (0 ∷ 0 ∷ 0 ∷ 66 ∷ 33 ∷ []) j + 1))
normalized_percents_lem_example =
    normalized_percents_lem exact 3 (0 ∷ 0 ∷ 0 ∷ 2 ∷ 1 ∷ []) (omega arith) refl

handed : normalized_percents exact 3 (0 ∷ 0 ∷ 0 ∷ 2 ∷ 1 ∷ []) ≡ some (0 ∷ 0 ∷ 0 ∷ 67 ∷ 33 ∷ [])
unfolding normalized_percents
handed = refl

normalized_percents_fair_example : exact.frac_gt 1 2 3 ≡ false
normalized_percents_fair_example =
    normalized_percents_fair exact 3 (0 ∷ 0 ∷ 0 ∷ 2 ∷ 1 ∷ []) (0 ∷ 0 ∷ 0 ∷ 67 ∷ 33 ∷ []) 3 4
      (omega arith) (omega arith) (omega arith) handed refl refl

review_percents_lem_example :
    (percents : List ℕ) × (review_percents digit exact three_scores ≡ some percents)
    × (total percents ≡ 100)
    × (length percents ≡ 5)
review_percents_lem_example =
    review_percents_lem digit exact (review "5") (review "4" ∷ review "4" ∷ []) all_numeric

three_scores_percents : review_percents digit exact three_scores ≡ some (0 ∷ 0 ∷ 0 ∷ 67 ∷ 33 ∷ [])
unfolding review_percents
three_scores_percents = refl

few_numeric :
    100 * numeric digit (review "good" ∷ review "4" ∷ [])
    < 95 * length (review "good" ∷ review "4" ∷ [])
unfolding numeric opentelemetry_demo_mb3r.Reviews.clamp
few_numeric = omega arith

review_percents_throws_example :
    review_percents digit exact (review "good" ∷ review "4" ∷ []) ≡ none
review_percents_throws_example =
    review_percents_throws digit exact (review "good") (review "4" ∷ []) few_numeric
