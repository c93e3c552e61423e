-- ===== src/Reviews/Remainder.antt =====
-- Which bars `normalizedPercents` gives one of the remainder to.
use mathlib.Core.Option.{some-injective}
use opentelemetry_demo_mb3r.Prelude.{
  ℕ, zero, suc, ◌+◌, ◌-◌, ◌<◌, ◌≡◌, ◌≢◌, refl, sym, ap, ◌∙◌, subst, false, some, List, [], ◌∷◌, All,
  length, length-map, arith, Bool-cases, inl, inr, ◌⊎◌,
}
use opentelemetry_demo_mb3r.Reviews.{
  Percents, increment, indexed, hand_out, total, insert_by_frac, sort_by_frac, floored,
  normalized_percents,
}
use opentelemetry_demo_mb3r.Reviews.Loop.{
  Below, Distinct, at, at-hand_out-Without, at-increment_ne, at-increment_eq, length-increment,
}
use opentelemetry_demo_mb3r.Reviews.Percentages.{
  insert-All, sort-All, sort-Distinct, indexed-Distinct, indexed-Below,
}

-- An entry stands in a list.
abbrev Has : ℕ × ℕ → List (ℕ × ℕ) → Type 0
Has e [] = ⊥
Has e (x ∷ xs) = (x ≡ e) ⊎ Has e xs

All-Has : (P : ℕ × ℕ → Type 0) (xs : List (ℕ × ℕ)) (e : ℕ × ℕ) → All P xs → Has e xs → P e
All-Has P [] e h m = absurd m
All-Has P (x ∷ xs) e h (inl same) = subst P same h.0
All-Has P (x ∷ xs) e h (inr m) = All-Has P xs e h.1 m

Has-indexed : (i j : ℕ) (cs : List ℕ) → j < length cs → Has (i + j, at cs j) (indexed i cs)
Has-indexed i j [] h = absurd (omega arith)
Has-indexed i zero (c ∷ cs) h = inl (ap (λ k. (k, c)) (omega arith))
Has-indexed i (suc j) (c ∷ cs) h = inr (
    subst (λ k. Has (k, at cs j) (indexed (suc i) cs)) (omega arith)
      (Has-indexed (suc i) j cs (omega arith)))

Has-counted : (j : ℕ) (cs : List ℕ) → j < length cs → Has (j, at cs j) (indexed 0 cs)
Has-counted j cs h =
    subst (λ k. Has (k, at cs j) (indexed 0 cs)) (omega arith) (Has-indexed 0 j cs h)

module _ (p : Percents) (n : ℕ) where
  Has-insert_self : (x : ℕ × ℕ) (ys : List (ℕ × ℕ)) → Has x (insert_by_frac p n x ys)
  unfolding insert_by_frac
  Has-insert_self x [] = inl refl
  Has-insert_self x (y ∷ ys) = elim (Bool-cases (p.frac_gt y.1 x.1 n)) [
    | inl later ↦ rw later (inr (Has-insert_self x ys))
    | inr now ↦ rw now (inl refl)
  ]

  Has-insert : (x e : ℕ × ℕ) (ys : List (ℕ × ℕ)) → Has e ys → Has e (insert_by_frac p n x ys)
  unfolding insert_by_frac
  Has-insert x e [] m = absurd m
  Has-insert x e (y ∷ ys) (inl same) = elim (Bool-cases (p.frac_gt y.1 x.1 n)) [
    | inl later ↦ rw later (inl same)
    | inr now ↦ rw now (inr (inl same))
  ]
  Has-insert x e (y ∷ ys) (inr m) = elim (Bool-cases (p.frac_gt y.1 x.1 n)) [
    | inl later ↦ rw later (inr (Has-insert x e ys m))
    | inr now ↦ rw now (inr (inr m))
  ]

  Has-sort : (e : ℕ × ℕ) (xs : List (ℕ × ℕ)) → Has e xs → Has e (sort_by_frac p n xs)
  unfolding sort_by_frac
  Has-sort e [] m = absurd m
  Has-sort e (x ∷ xs) (inl same) =
      subst (λ y. Has y (insert_by_frac p n x (sort_by_frac p n xs))) same
        (Has-insert_self x (sort_by_frac p n xs))
  Has-sort e (x ∷ xs) (inr m) = Has-insert x e (sort_by_frac p n xs) (Has-sort e xs m)

  -- No fraction is greater than one that stands before it.
  abbrev NotBefore : ℕ × ℕ → ℕ × ℕ → Type 0
  NotBefore x y = p.frac_gt y.1 x.1 n ≡ false

  abbrev IsSorted : List (ℕ × ℕ) → Type 0
  IsSorted [] = Unit
  IsSorted (x ∷ xs) = All (NotBefore x) xs × IsSorted xs

  not_greater : (x y z : ℕ × ℕ) → 0 < n → NotBefore y z → NotBefore x y → NotBefore x z
  not_greater x y z pos h k = elim (Bool-cases (p.frac_gt z.1 x.1 n)) [
    | inl greater ↦ elim (p.frac_gt_through z.1 y.1 x.1 n pos greater) [
      | inl e ↦ absurd (cc)
      | inr e ↦ absurd (cc)
    ]
    | inr e ↦ e
  ]

  All-not_greater :
      (x y : ℕ × ℕ) (zs : List (ℕ × ℕ))
      → 0 < n
      → NotBefore x y
      → All (NotBefore y) zs
      → All (NotBefore x) zs
  All-not_greater x y [] pos k h = tt
  All-not_greater x y (z ∷ zs) pos k h =
      (not_greater x y z pos h.0 k, All-not_greater x y zs pos k h.1)

  insert-IsSorted :
      (x : ℕ × ℕ) (ys : List (ℕ × ℕ)) → 0 < n → IsSorted ys → IsSorted (insert_by_frac p n x ys)
  unfolding insert_by_frac
  insert-IsSorted x [] pos h = (tt, tt)
  insert-IsSorted x (y ∷ ys) pos h = elim (Bool-cases (p.frac_gt y.1 x.1 n)) [
    | inl later ↦ rw later (
      insert-All p n (NotBefore y) x ys (p.frac_gt_asym y.1 x.1 n pos later) h.0,
      insert-IsSorted x ys pos h.1,
    )
    | inr now ↦ rw now ((now, All-not_greater x y ys pos now h.0), h)
  ]

  sort-IsSorted : (xs : List (ℕ × ℕ)) → 0 < n → IsSorted (sort_by_frac p n xs)
  unfolding sort_by_frac
  sort-IsSorted [] pos = tt
  sort-IsSorted (x ∷ xs) pos = insert-IsSorted x (sort_by_frac p n xs) pos (sort-IsSorted xs pos)

  -- An entry whose bar gets nothing has no greater fraction than one whose bar gets something.
  hand_out-NotBefore :
      (k : ℕ) (order : List (ℕ × ℕ)) (xs ys : List ℕ) (e f : ℕ × ℕ)
      → Distinct order
      → IsSorted order
      → Below (length xs) order
      → hand_out k order xs ≡ some ys
      → Has e order
      → Has f order
      → at ys e.0 ≡ at xs e.0
      → at ys f.0 ≡ at xs f.0 + 1
      → NotBefore f e
  unfolding hand_out
  hand_out-NotBefore zero order xs ys e f d s b h me mf he hf =
      let same = ap (λ l. at l f.0) (some-injective _ _ h) in absurd (omega arith)
  hand_out-NotBefore (suc k) [] xs ys e f d s b h me mf he hf = absurd me
  hand_out-NotBefore (suc k) (g ∷ order) xs ys e f d s b h (inl same) mf he hf =
      let given = at-hand_out-Without k order (increment xs g.0) ys g.0 d.0 h in
      let step = at-increment_eq xs g.0 b.0 in
      let mine = subst (λ i. at ys i.0 ≡ at xs i.0) (sym same) he in absurd (omega arith)
  hand_out-NotBefore (suc k) (g ∷ order) xs ys e f d s b h (inr me) (inl same) he hf =
      subst (λ x. NotBefore x e) same (All-Has (NotBefore g) order e s.0 me)
  hand_out-NotBefore (suc k) (g ∷ order) xs ys e f d s b h (inr me) (inr mf) he hf =
      let e_other =
        at-increment_ne xs g.0 e.0 (λ q. All-Has (λ x. x.0 ≢ g.0) order e d.0 me (sym q)) in
      let f_other =
        at-increment_ne xs g.0 f.0 (λ q. All-Has (λ x. x.0 ≢ g.0) order f d.0 mf (sym q)) in
      hand_out-NotBefore k order (increment xs g.0) ys e f d.1 s.1
        (subst (λ m. Below m order) (sym (length-increment xs g.0)) b.1) h me mf (he ∙ sym e_other)
        (hf ∙ ap (λ x. x + 1) (sym f_other))

-- If there is a review, a bar that gets one of the remainder has no smaller fraction than a bar that
-- gets none.
pub normalized_percents_fair :
    (p : Percents) (n : ℕ) (counts percents : List ℕ) (i j : ℕ)
    → 0 < n
    → i < length counts
    → j < length counts
    → normalized_percents p n counts ≡ some percents
    → at percents i ≡ at (floored p n counts) i + 1
    → at percents j ≡ at (floored p n counts) j
    → p.frac_gt (at counts j) (at counts i) n ≡ false
unfolding normalized_percents
normalized_percents_fair p n counts percents i j pos hi hj done more equal =
    let floors = floored p n counts in
    let order = sort_by_frac p n (indexed 0 counts) in
    let same = length-map (λ c. p.floor_percent c n) counts in
    let below : Below (length floors) order =
      sort-All p n (λ e. e.0 < length floors) (indexed 0 counts)
        (indexed-Below 0 (length floors) counts (omega arith)) in
    hand_out-NotBefore p n (100 - total floors) order floors percents (j, at counts j)
      (i, at counts i) (sort-Distinct p n (indexed 0 counts) (indexed-Distinct 0 counts))
      (sort-IsSorted p n (indexed 0 counts) pos) below done
      (Has-sort p n (j, at counts j) (indexed 0 counts) (Has-counted j counts hj))
      (Has-sort p n (i, at counts i) (indexed 0 counts) (Has-counted i counts hi)) equal more
