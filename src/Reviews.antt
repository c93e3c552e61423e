-- ===== src/Reviews.antt =====
-- The statistics of src/frontend/components/ProductReviews/ProductReviews.tsx: the distribution of
-- the scores and the percentages of its bars.
-- The arithmetic of doubles is a parameter: `rounded` is `Math.round(Number(text))`, and
-- `Percents` is what the page computes with a share of a hundred.
pub mod Distribution
pub mod Loop
pub mod Percentages
pub mod Remainder
use Prim.Native.Nat.{compare, Ordering}
use opentelemetry_demo_mb3r.Prelude.{
  ℕ, zero, suc, ◌+◌, ◌-◌, ◌*◌, ◌≤◌, ◌<◌, ℤ, pos, negsuc, String, Bool, true, false, ◌≡◌, ◌⊎◌,
  Option, none, some, List, [], ◌∷◌, map, ltb, length, if◌then◌else◌,
}
use opentelemetry_demo_mb3r.Proto.{ProductReview}

-- A double that `Math.round` returns.
pub data Rounded : Type 0 where
  not_a_number minus_infinity plus_infinity : Rounded
  integer : ℤ → Rounded

abbrev pub at_least : ℕ → ℕ → ℕ
at_least lo n = if ltb n lo then lo else n

abbrev pub at_most : ℕ → ℕ → ℕ
at_most hi n = if ltb hi n then hi else n

-- `Math.max(min, Math.min(max, n))`, for bounds that are natural numbers; `none` is NaN.
unfoldable pub clamp : Rounded → ℕ → ℕ → Option ℕ
clamp not_a_number lo hi = none
clamp minus_infinity lo hi = some lo
clamp plus_infinity lo hi = some (at_least lo hi)
clamp (integer (pos n)) lo hi = some (at_least lo (at_most hi n))
clamp (integer (negsuc n)) lo hi = some lo

-- `counts[i] += 1`.
unfoldable pub increment : List ℕ → ℕ → List ℕ
increment [] i = []
increment (c ∷ cs) zero = (c + 1) ∷ cs
increment (c ∷ cs) (suc i) = c ∷ increment cs i

-- `counts[s - 1] += 1`; with NaN for an index it changes no element.
unfoldable pub count_star : List ℕ → Option ℕ → List ℕ
unfolding increment
count_star counts none = counts
count_star counts (some star) = increment counts (star - 1)

module _ (rounded : String → Rounded) where
  -- The loop of `distribution`.
  unfoldable pub count_scores : List ℕ → List ProductReview → List ℕ
  unfolding count_star clamp
  count_scores counts [] = counts
  count_scores counts (r ∷ reviews) =
      count_scores (count_star counts (clamp (rounded r.score) 1 5)) reviews

  unfoldable pub distribution : List ProductReview → List ℕ
  unfolding count_scores
  distribution reviews = count_scores (0 ∷ 0 ∷ 0 ∷ 0 ∷ 0 ∷ []) reviews

-- With `p = (c / n) * 100` in doubles: `Math.floor(p)`, and whether `p - Math.floor(p)` is greater
-- for one count than for another. The floor is the true one, or one less where the true share is a
-- whole number that the division missed. The doubles of the fractions are numbers, which are ordered.
pub record Percents : Type 0 where
  pub floor_percent : ℕ → ℕ → ℕ
  pub frac_gt : ℕ → ℕ → ℕ → Bool
  pub floor_low : (c n : ℕ) → 0 < n → c ≤ n → n * floor_percent c n ≤ 100 * c
  pub floor_high : (c n : ℕ) → 0 < n → c ≤ n → 100 * c ≤ n * floor_percent c n + n
  pub frac_gt_asym : (c d n : ℕ) → 0 < n → frac_gt c d n ≡ true → frac_gt d c n ≡ false
  pub frac_gt_through :
      (c d e n : ℕ) → 0 < n → frac_gt c e n ≡ true → (frac_gt c d n ≡ true) ⊎ (frac_gt d e n ≡ true)

-- The pairs `(i, c)` of an index and a count, in their order.
abbrev pub indexed : ℕ → List ℕ → List (ℕ × ℕ)
indexed i [] = []
indexed i (c ∷ cs) = (i, c) ∷ indexed (suc i) cs

abbrev pub total : List ℕ → ℕ
total [] = 0
total (c ∷ cs) = c + total cs

-- The loop over the `remainder`; `none` is the `TypeError` of `order[k].i` behind the end of `order`.
unfoldable pub hand_out : ℕ → List (ℕ × ℕ) → List ℕ → Option (List ℕ)
unfolding increment
hand_out zero order percents = some percents
hand_out (suc k) [] percents = none
hand_out (suc k) (entry ∷ order) percents = hand_out k order (increment percents entry.0)

module _ (p : Percents) (n : ℕ) where
  -- `sort` by descending fractions keeps the order of equal ones.
  unfoldable pub insert_by_frac : ℕ × ℕ → List (ℕ × ℕ) → List (ℕ × ℕ)
  insert_by_frac x [] = x ∷ []
  insert_by_frac x (y ∷ ys) =
      let later = y ∷ insert_by_frac x ys in if p.frac_gt y.1 x.1 n then later else x ∷ y ∷ ys

  unfoldable pub sort_by_frac : List (ℕ × ℕ) → List (ℕ × ℕ)
  unfolding insert_by_frac
  sort_by_frac [] = []
  sort_by_frac (x ∷ xs) = insert_by_frac x (sort_by_frac xs)

  abbrev pub floored : List ℕ → List ℕ
  floored counts = map (λ c. p.floor_percent c n) counts

  -- `normalizedPercents` for `n` reviews, `n > 0`. A negative remainder hands out nothing, as the
  -- truncated difference does.
  unfoldable pub normalized_percents : List ℕ → Option (List ℕ)
  unfolding hand_out sort_by_frac
  normalized_percents counts =
      hand_out (100 - total (floored counts)) (sort_by_frac (indexed 0 counts)) (floored counts)

-- `distribution`, then `normalizedPercents`; without reviews every percentage is 0.
unfoldable pub review_percents :
    (String → Rounded) → Percents → List ProductReview → Option (List ℕ)
unfolding distribution normalized_percents
review_percents rounded p [] = some (0 ∷ 0 ∷ 0 ∷ 0 ∷ 0 ∷ [])
review_percents rounded p (r ∷ reviews) =
    normalized_percents p (length (r ∷ reviews)) (distribution rounded (r ∷ reviews))
