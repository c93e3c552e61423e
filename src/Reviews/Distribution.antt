-- ===== src/Reviews/Distribution.antt =====
-- The counts of `distribution`, and `normalizedPercents` of them, in src/frontend/components/
-- ProductReviews/ProductReviews.tsx.
use native.Mathlib.Nat.{lt_of_mul-lt-mul_left}
use opentelemetry_demo_mb3r.Prelude.{
  ℕ, zero, suc, ◌+◌, ◌-◌, ◌*◌, ◌≤◌, ◌<◌, pos, negsuc, String, ◌≡◌, refl, ◌∙◌, Option, none, some,
  List, [], ◌∷◌, length, arith,
}
use opentelemetry_demo_mb3r.Proto.{ProductReview}
use opentelemetry_demo_mb3r.Reviews.{
  Rounded, not_a_number, minus_infinity, plus_infinity, integer, clamp, count_star, count_scores,
  distribution, Percents, total, hand_out, indexed, sort_by_frac, floored, normalized_percents,
  review_percents,
}
use opentelemetry_demo_mb3r.Reviews.Loop.{total-increment, length-increment}
use opentelemetry_demo_mb3r.Reviews.Percentages.{
  normalized_percents_lem, floors_low, length-sort, length-indexed,
}

-- 1 for a number, 0 for NaN.
abbrev pub weight : Option ℕ → ℕ
weight none = 0
weight (some star) = 1

-- A clamped number lies between the bounds.
clamp_bounds : (r : Rounded) (star : ℕ) → clamp r 1 5 ≡ some star → (1 ≤ star) × (star ≤ 5)
unfolding clamp
clamp_bounds not_a_number star h = absurd (cc)
clamp_bounds minus_infinity star h = ground arith
clamp_bounds plus_infinity star h = ground arith
clamp_bounds (integer (pos n)) star h = ground arith
clamp_bounds (integer (negsuc n)) star h = ground arith

total-count_star :
    (counts : List ℕ) (star : Option ℕ)
    → ((s : ℕ) → star ≡ some s → (1 ≤ s) × (s ≤ 5))
    → length counts ≡ 5
    → (total (count_star counts star) ≡ total counts + weight star)
      × (length (count_star counts star) ≡ 5)
unfolding count_star
total-count_star counts none b h = omega arith
total-count_star counts (some s) b h =
    let (low, high) = b s refl in
    (total-increment counts (s - 1) (omega arith), length-increment counts (s - 1) ∙ h)

module _ (rounded : String → Rounded) where
  abbrev star_of : ProductReview → Option ℕ
  star_of r = clamp (rounded r.score) 1 5

  -- How many of the reviews have a number for a score.
  unfoldable pub numeric : List ProductReview → ℕ
  numeric [] = 0
  numeric (r ∷ reviews) = weight (clamp (rounded r.score) 1 5) + numeric reviews

  total-count_scores :
      (counts : List ℕ) (reviews : List ProductReview)
      → length counts ≡ 5
      → (total (count_scores rounded counts reviews) ≡ total counts + numeric reviews)
        × (length (count_scores rounded counts reviews) ≡ 5)
  unfolding count_scores numeric
  total-count_scores counts [] h = omega arith
  total-count_scores counts (r ∷ reviews) h =
      let star = star_of r in
      let (sum, five) = total-count_star counts star (clamp_bounds (rounded r.score)) h in
      let (sum', five') = total-count_scores (count_star counts star) reviews five in
      (omega arith, five')

  -- There are five counts, and they add up to the number of reviews that have a number for a score.
  pub distribution_lem :
      (reviews : List ProductReview)
      → (total (distribution rounded reviews) ≡ numeric reviews)
        × (length (distribution rounded reviews) ≡ 5)
  unfolding distribution
  distribution_lem reviews =
      let (sum, five) = total-count_scores (0 ∷ 0 ∷ 0 ∷ 0 ∷ 0 ∷ []) reviews refl in
      (omega arith, five)

hand_out-none :
    (k : ℕ) (order : List (ℕ × ℕ)) (xs : List ℕ) → length order < k → hand_out k order xs ≡ none
unfolding hand_out
hand_out-none zero order xs h = absurd (omega arith)
hand_out-none (suc k) [] xs h = refl
hand_out-none (suc k) (e ∷ order) xs h = hand_out-none k order _ (omega arith)

-- If there are reviews and every score is a number, then the percentages are computed without an
-- error: they are five, and add up to 100.
pub review_percents_lem :
    (rounded : String → Rounded) (p : Percents) (r : ProductReview) (reviews : List ProductReview)
    → numeric rounded (r ∷ reviews) ≡ length (r ∷ reviews)
    → (percents : List ℕ) × (review_percents rounded p (r ∷ reviews) ≡ some percents)
      × (total percents ≡ 100)
      × (length percents ≡ 5)
unfolding review_percents
review_percents_lem rounded p r reviews all =
    let (sum, five) = distribution_lem rounded (r ∷ reviews) in
    let (percents, done, hundred, len, bounds) =
      normalized_percents_lem p (length (r ∷ reviews)) (distribution rounded (r ∷ reviews))
        (omega arith) (sum ∙ all) in
    (percents, done, hundred, len ∙ five)

-- If less than 95 in a hundred reviews have a number for a score, then the loop over the remainder
-- runs past the end of its order, and the page throws.
pub review_percents_throws :
    (rounded : String → Rounded) (p : Percents) (r : ProductReview) (reviews : List ProductReview)
    → 100 * numeric rounded (r ∷ reviews) < 95 * length (r ∷ reviews)
    → review_percents rounded p (r ∷ reviews) ≡ none
unfolding review_percents normalized_percents
review_percents_throws rounded p r reviews few =
    let all = r ∷ reviews in
    let n = length all in
    let counts = distribution rounded all in
    let (sum, five) = distribution_lem rounded all in
    let low = floors_low p n counts (omega arith) (omega arith) in
    let small : total (floored p n counts) < 95 = lt_of_mul-lt-mul_left n (omega arith) in
    hand_out-none (100 - total (floored p n counts)) (sort_by_frac p n (indexed 0 counts))
      (floored p n counts)
      (omega (arith, length-sort p n (indexed 0 counts), length-indexed 0 counts))
