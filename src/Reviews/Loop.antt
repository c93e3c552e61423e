-- ===== src/Reviews/Loop.antt =====
-- The loop of `normalizedPercents` that hands out the remainder.
use native.Mathlib.Decide.{ℕ_discrete}
use mathlib.Core.Option.{some-injective}
use opentelemetry_demo_mb3r.Prelude.{
  ℕ, zero, suc, ◌+◌, ◌≤◌, ◌<◌, ◌≡◌, ◌≢◌, refl, sym, ap, ◌∙◌, some, subst, List, [], ◌∷◌, All,
  length, arith,
}
use opentelemetry_demo_mb3r.Reviews.{increment, total, hand_out}

pub total-increment : (xs : List ℕ) (i : ℕ) → i < length xs → total (increment xs i) ≡ total xs + 1
unfolding increment
total-increment [] i h = absurd (omega arith)
total-increment (x ∷ xs) zero h = omega arith
total-increment (x ∷ xs) (suc i) h = omega (arith, total-increment xs i)

pub length-increment : (xs : List ℕ) (i : ℕ) → length (increment xs i) ≡ length xs
unfolding increment
length-increment [] i = refl
length-increment (x ∷ xs) zero = refl
length-increment (x ∷ xs) (suc i) = ap suc (length-increment xs i)

-- The value at an index, 0 behind the end.
abbrev pub at : List ℕ → ℕ → ℕ
at [] j = 0
at (x ∷ xs) zero = x
at (x ∷ xs) (suc j) = at xs j

pub at-increment_eq : (xs : List ℕ) (i : ℕ) → i < length xs → at (increment xs i) i ≡ at xs i + 1
unfolding increment
at-increment_eq [] i h = absurd (omega arith)
at-increment_eq (x ∷ xs) zero h = refl
at-increment_eq (x ∷ xs) (suc i) h = at-increment_eq xs i (omega arith)

pub at-increment_ne : (xs : List ℕ) (i j : ℕ) → i ≢ j → at (increment xs i) j ≡ at xs j
unfolding increment
at-increment_ne [] i j h = refl
at-increment_ne (x ∷ xs) zero zero h = absurd (h refl)
at-increment_ne (x ∷ xs) zero (suc j) h = refl
at-increment_ne (x ∷ xs) (suc i) zero h = refl
at-increment_ne (x ∷ xs) (suc i) (suc j) h = at-increment_ne xs i j (λ e. h (ap suc e))

at-increment :
    (xs : List ℕ) (i j : ℕ)
    → (at xs j ≤ at (increment xs i) j) × (at (increment xs i) j ≤ at xs j + 1)
unfolding increment
at-increment [] i j = omega arith
at-increment (x ∷ xs) zero zero = omega arith
at-increment (x ∷ xs) zero (suc j) = omega arith
at-increment (x ∷ xs) (suc i) zero = omega arith
at-increment (x ∷ xs) (suc i) (suc j) = at-increment xs i j

-- Every index is one of the list's; no index occurs twice.
abbrev pub Below : ℕ → List (ℕ × ℕ) → Type 0
Below m order = All (λ e. e.0 < m) order

abbrev pub Without : ℕ → List (ℕ × ℕ) → Type 0
Without i order = All (λ e. e.0 ≢ i) order

abbrev pub Distinct : List (ℕ × ℕ) → Type 0
Distinct [] = Unit
Distinct (e ∷ order) = Without e.0 order × Distinct order

pub total-hand_out :
    (k : ℕ) (order : List (ℕ × ℕ)) (xs : List ℕ)
    → k ≤ length order
    → Below (length xs) order
    → (ys : List ℕ) × (hand_out k order xs ≡ some ys)
      × (total ys ≡ total xs + k)
      × (length ys ≡ length xs)
unfolding hand_out
total-hand_out zero order xs h b = (xs, refl, omega arith, refl)
total-hand_out (suc k) [] xs h b = absurd (omega arith)
total-hand_out (suc k) (e ∷ order) xs h b =
    let len = length-increment xs e.0 in
    let (ys, done, sum, same) =
      total-hand_out k order (increment xs e.0) (omega arith)
        (subst (λ m. Below m order) (sym len) b.1) in
    (ys, done, omega (arith, total-increment xs e.0), same ∙ len)

pub at-hand_out-Without :
    (k : ℕ) (order : List (ℕ × ℕ)) (xs ys : List ℕ) (j : ℕ)
    → Without j order
    → hand_out k order xs ≡ some ys
    → at ys j ≡ at xs j
unfolding hand_out
at-hand_out-Without zero order xs ys j w h = ap (λ l. at l j) (sym (some-injective _ _ h))
at-hand_out-Without (suc k) [] xs ys j w h = absurd (cc)
at-hand_out-Without (suc k) (e ∷ order) xs ys j w h =
    at-hand_out-Without k order (increment xs e.0) ys j w.1 h ∙ at-increment_ne xs e.0 j w.0

pub at-hand_out :
    (k : ℕ) (order : List (ℕ × ℕ)) (xs ys : List ℕ) (j : ℕ)
    → Distinct order
    → hand_out k order xs ≡ some ys
    → (at xs j ≤ at ys j) × (at ys j ≤ at xs j + 1)
unfolding hand_out
at-hand_out zero order xs ys j d h = let e = ap (λ l. at l j) (some-injective _ _ h) in omega arith
at-hand_out (suc k) [] xs ys j d h = absurd (cc)
at-hand_out (suc k) (e ∷ order) xs ys j d h = elim (ℕ_discrete e.0 j) [
  | yes same ↦
      let kept =
        at-hand_out-Without k order (increment xs e.0) ys j (subst (λ i. Without i order) same d.0)
          h in
      let step = at-increment xs e.0 j in omega arith
  | no other ↦
      let ih = at-hand_out k order (increment xs e.0) ys j d.1 h in
      let kept = at-increment_ne xs e.0 j other in omega arith
]
