-- ===== src/Reviews/Percentages.antt =====
-- The percentages of `normalizedPercents`, and the order in which the remainder is handed out.
use native.Mathlib.Nat.{le_of_mul-le-mul_left}
use opentelemetry_demo_mb3r.Prelude.{
  ℕ, suc, ◌+◌, ◌-◌, ◌*◌, ◌≤◌, ◌<◌, ◌≡◌, ◌≢◌, refl, sym, ap, ◌∙◌, some, List, [], ◌∷◌, All, length,
  length-map, arith, Bool-cases, inl, inr,
}
use opentelemetry_demo_mb3r.Reviews.{
  Percents, indexed, total, insert_by_frac, sort_by_frac, floored, normalized_percents,
}
use opentelemetry_demo_mb3r.Reviews.Loop.{Below, Without, Distinct, at, total-hand_out, at-hand_out}

module _ (p : Percents) (n : ℕ) where
  module _ {ℓ} (P : ℕ × ℕ → Type ℓ) where
    pub insert-All :
        (x : ℕ × ℕ) (ys : List (ℕ × ℕ)) → P x → All P ys → All P (insert_by_frac p n x ys)
    unfolding insert_by_frac
    insert-All x [] px h = (px, tt)
    insert-All x (y ∷ ys) px h = elim (Bool-cases (p.frac_gt y.1 x.1 n)) [
      | inl later ↦ rw later (h.0, insert-All x ys px h.1)
      | inr now ↦ rw now (px, h)
    ]

    pub sort-All : (xs : List (ℕ × ℕ)) → All P xs → All P (sort_by_frac p n xs)
    unfolding sort_by_frac
    sort-All [] h = tt
    sort-All (x ∷ xs) h = insert-All x (sort_by_frac p n xs) h.0 (sort-All xs h.1)

  insert-Distinct :
      (x : ℕ × ℕ) (ys : List (ℕ × ℕ))
      → Without x.0 ys
      → Distinct ys
      → Distinct (insert_by_frac p n x ys)
  unfolding insert_by_frac
  insert-Distinct x [] w d = (tt, tt)
  insert-Distinct x (y ∷ ys) w d = elim (Bool-cases (p.frac_gt y.1 x.1 n)) [
    | inl later ↦
        rw later
          (insert-All (λ e. e.0 ≢ y.0) x ys (λ e. w.0 (sym e)) d.0, insert-Distinct x ys w.1 d.1)
    | inr now ↦ rw now (w, d)
  ]

  pub sort-Distinct : (xs : List (ℕ × ℕ)) → Distinct xs → Distinct (sort_by_frac p n xs)
  unfolding sort_by_frac
  sort-Distinct [] d = tt
  sort-Distinct (x ∷ xs) d =
      insert-Distinct x (sort_by_frac p n xs) (sort-All (λ e. e.0 ≢ x.0) xs d.0)
        (sort-Distinct xs d.1)

  length-insert :
      (x : ℕ × ℕ) (ys : List (ℕ × ℕ)) → length (insert_by_frac p n x ys) ≡ suc (length ys)
  unfolding insert_by_frac
  length-insert x [] = refl
  length-insert x (y ∷ ys) = elim (Bool-cases (p.frac_gt y.1 x.1 n)) [
    | inl later ↦ rw later (ap suc (length-insert x ys))
    | inr now ↦ rw now
  ]

  pub length-sort : (xs : List (ℕ × ℕ)) → length (sort_by_frac p n xs) ≡ length xs
  unfolding sort_by_frac
  length-sort [] = refl
  length-sort (x ∷ xs) = length-insert x (sort_by_frac p n xs) ∙ ap suc (length-sort xs)

  -- The floors, between the true shares and one less.
  pub floors_low :
      (counts : List ℕ)
      → 0 < n
      → total counts ≤ n
      → n * total (floored p n counts) ≤ 100 * total counts
  floors_low [] pos h = omega arith
  floors_low (c ∷ counts) pos h =
      omega (arith, p.floor_low c n pos (omega arith), floors_low counts pos (omega arith))

  floors_high :
      (counts : List ℕ)
      → 0 < n
      → total counts ≤ n
      → 100 * total counts ≤ n * total (floored p n counts) + n * length counts
  floors_high [] pos h = omega arith
  floors_high (c ∷ counts) pos h =
      omega (arith, p.floor_high c n pos (omega arith), floors_high counts pos (omega arith))

pub length-indexed : (i : ℕ) (cs : List ℕ) → length (indexed i cs) ≡ length cs
length-indexed i [] = refl
length-indexed i (c ∷ cs) = ap suc (length-indexed (suc i) cs)

pub indexed-Below : (i m : ℕ) (cs : List ℕ) → i + length cs ≤ m → Below m (indexed i cs)
indexed-Below i m [] h = tt
indexed-Below i m (c ∷ cs) h = (omega arith, indexed-Below (suc i) m cs (omega arith))

indexed-Without : (i j : ℕ) (cs : List ℕ) → j < i → Without j (indexed i cs)
indexed-Without i j [] h = tt
indexed-Without i j (c ∷ cs) h = (omega arith, indexed-Without (suc i) j cs (omega arith))

pub indexed-Distinct : (i : ℕ) (cs : List ℕ) → Distinct (indexed i cs)
indexed-Distinct i [] = tt
indexed-Distinct i (c ∷ cs) =
    (indexed-Without (suc i) i cs (omega arith), indexed-Distinct (suc i) cs)

-- The remainder is at most the number of bars.
remainder_bounds :
    (p : Percents) (n : ℕ) (counts : List ℕ)
    → 0 < n
    → total counts ≡ n
    → (total (floored p n counts) ≤ 100) × (100 ≤ total (floored p n counts) + length counts)
remainder_bounds p n counts pos all =
    let low = floors_low p n counts pos (omega arith) in
    let high = floors_high p n counts pos (omega arith) in
    (
      le_of_mul-le-mul_left {k = n} (omega arith) pos,
      le_of_mul-le-mul_left {k = n} (omega arith) pos,
    )

-- If the counts add up to the number of reviews, and there is one, then the percentages are
-- computed without an error; they add up to 100, there is one for each count, and each is the floor
-- of its share or one more.
pub normalized_percents_lem :
    (p : Percents) (n : ℕ) (counts : List ℕ)
    → 0 < n
    → total counts ≡ n
    → (percents : List ℕ) × (normalized_percents p n counts ≡ some percents)
      × (total percents ≡ 100)
      × (length percents ≡ length counts)
      × ((j : ℕ)
          → (at (floored p n counts) j ≤ at percents j)
            × (at percents j ≤ at (floored p n counts) j + 1))
unfolding normalized_percents
normalized_percents_lem p n counts pos all =
    let floors = floored p n counts in
    let order = sort_by_frac p n (indexed 0 counts) in
    let (low, high) = remainder_bounds p n counts pos all in
    let same = length-map (λ c. p.floor_percent c n) counts in
    let size : length order ≡ length counts =
      length-sort p n (indexed 0 counts) ∙ length-indexed 0 counts in
    let below : Below (length floors) order =
      sort-All p n (λ e. e.0 < length floors) (indexed 0 counts)
        (indexed-Below 0 (length floors) counts (omega arith)) in
    let (percents, done, sum, len) =
      total-hand_out (100 - total floors) order floors (omega arith) below in
    (
      percents,
      done,
      omega arith,
      len ∙ same,
      λ j.
          at-hand_out (100 - total floors) order floors percents j
            (sort-Distinct p n (indexed 0 counts) (indexed-Distinct 0 counts)) done,
    )
