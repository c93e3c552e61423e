-- ===== src/Promise/Settled.antt =====
-- Schedules that answer every task often enough.
use opentelemetry_demo_mb3r.Prelude.{
  ℕ, zero, suc, ◌+◌, ◌≤◌, ◌<◌, ◌≡◌, refl, ap, List, [], ◌∷◌, ◌++◌, map, eqb, if◌then◌else◌, arith,
  length, subst, ◌⊎◌, inl, inr,
}
use opentelemetry_demo_mb3r.Calls.{Failure, Callback, Reply, Services}
use opentelemetry_demo_mb3r.Promise.{Promise, resolved, rejected, waiting, ◌>>=◌}
use opentelemetry_demo_mb3r.Promise.Schedule.{answer, step, play}

-- Whatever the answers, the promise makes no more calls than that.
abbrev pub CallsAtMost {ℓ} : {A : Type ℓ} → ℕ → Promise A → Type 0
CallsAtMost n (resolved a) = Unit
CallsAtMost n (rejected e) = Unit
CallsAtMost zero (waiting c k) = ⊥
CallsAtMost (suc n) (waiting c k) = (r : Callback (Reply c)) → CallsAtMost n (k r)

-- How often a schedule answers a task.
unfoldable pub turns : List ℕ → ℕ → ℕ
turns [] i = 0
turns (j ∷ is) i = (if eqb j i then 1 else 0) + turns is i

turns_le :
    (j : ℕ) (is : List ℕ) (i : ℕ) → turns (j ∷ is) i ≤ (if eqb j i then 1 else 0) + turns is i
unfolding turns
turns_le j is i = omega arith

-- Task `i` makes at most `n i` calls.
abbrev pub Within {ℓ} : {A : Type ℓ} → (ℕ → ℕ) → List (Promise A) → Type 0
Within n [] = Unit
Within n (p ∷ ps) = CallsAtMost (n 0) p × Within (λ i. n (suc i)) ps

pub CallsAtMost-mono {ℓ} :
    {A : Type ℓ} (m n : ℕ) (p : Promise A) → m ≤ n → CallsAtMost m p → CallsAtMost n p
CallsAtMost-mono m n (resolved a) h q = tt
CallsAtMost-mono m n (rejected e) h q = tt
CallsAtMost-mono zero n (waiting c k) h q = absurd q
CallsAtMost-mono (suc m) zero (waiting c k) h q = absurd (omega arith)
CallsAtMost-mono (suc m) (suc n) (waiting c k) h q =
    λ r. CallsAtMost-mono m n (k r) (omega arith) (q r)

pub CallsAtMost-bind {ℓ κ} :
    {A : Type ℓ} {B : Type κ} (m n l : ℕ) (p : Promise A) (f : A → Promise B)
    → m + n ≤ l
    → CallsAtMost m p
    → ((a : A) → CallsAtMost n (f a))
    → CallsAtMost l (p >>= f)
CallsAtMost-bind m n l (resolved a) f e h k = CallsAtMost-mono n l (f a) (omega arith) (k a)
CallsAtMost-bind m n l (rejected e') f e h k = tt
CallsAtMost-bind zero n l (waiting c next) f e h k = absurd h
CallsAtMost-bind (suc m) n zero (waiting c next) f e h k = absurd (omega arith)
CallsAtMost-bind (suc m) n (suc l) (waiting c next) f e h k =
    λ r. CallsAtMost-bind m n l (next r) f (omega arith) (h r) k

Within-mono {ℓ} :
    {A : Type ℓ} (m n : ℕ → ℕ) (ps : List (Promise A))
    → ((i : ℕ) → m i ≤ n i)
    → Within m ps
    → Within n ps
Within-mono m n [] h w = tt
Within-mono m n (p ∷ ps) h (w, ws) = (
  CallsAtMost-mono (m 0) (n 0) p (h 0) w,
  Within-mono (λ i. m (suc i)) (λ i. n (suc i)) ps (λ i. h (suc i)) ws,
)

-- Every task settled.
abbrev pub IsSettled {ℓ} : {A : Type ℓ} → List (Promise A) → Type 0
IsSettled [] = Unit
IsSettled (resolved a ∷ ps) = IsSettled ps
IsSettled (rejected e ∷ ps) = IsSettled ps
IsSettled (waiting c k ∷ ps) = ⊥

module _ {S : Type 0} (services : Services S) where
  CallsAtMost-answer {ℓ} :
      {A : Type ℓ} (n : ℕ) (p : Promise A) (s : S)
      → CallsAtMost (suc n) p
      → CallsAtMost n (answer services p s).0
  unfolding answer
  CallsAtMost-answer n (resolved a) s q = tt
  CallsAtMost-answer n (rejected e) s q = tt
  CallsAtMost-answer n (waiting c k) s q = q (services c s).0

  Within-step {ℓ} :
      {A : Type ℓ} (j : ℕ) (m n : ℕ → ℕ) (ps : List (Promise A)) (s : S)
      → ((i : ℕ) → n i ≤ (if eqb j i then 1 else 0) + m i)
      → Within n ps
      → Within m (step services j ps s).0
  unfolding step
  Within-step j m n [] s h w = tt
  Within-step zero m n (p ∷ ps) s h (w, ws) =
      let now = h 0 in
      (
        CallsAtMost-answer (m 0) p s (CallsAtMost-mono (n 0) (suc (m 0)) p (omega arith) w),
        Within-mono (λ i. n (suc i)) (λ i. m (suc i)) ps
            (λ i. let later = h (suc i) in ground arith) ws,
      )
  Within-step (suc j) m n (p ∷ ps) s h (w, ws) =
      let now = h 0 in
      (
        CallsAtMost-mono (n 0) (m 0) p (ground arith) w,
        Within-step j (λ i. m (suc i)) (λ i. n (suc i)) ps s
            (λ i. let later = h (suc i) in ground arith) ws,
      )

  Within-play {ℓ} :
      {A : Type ℓ} (is : List ℕ) (ps : List (Promise A)) (s : S)
      → Within (turns is) ps
      → Within (turns []) (play services is ps s).0
  unfolding play
  Within-play [] ps s w = w
  Within-play (j ∷ is) ps s w =
      Within-play is (step services j ps s).0 (step services j ps s).1
        (Within-step j (turns is) (turns (j ∷ is)) ps s (turns_le j is) w)

Within-IsSettled {ℓ} :
    {A : Type ℓ} (n : ℕ → ℕ) (ps : List (Promise A))
    → ((i : ℕ) → n i ≡ 0)
    → Within n ps
    → IsSettled ps
Within-IsSettled n [] h w = tt
Within-IsSettled n (resolved a ∷ ps) h (w, ws) =
    Within-IsSettled (λ i. n (suc i)) ps (λ i. h (suc i)) ws
Within-IsSettled n (rejected e ∷ ps) h (w, ws) =
    Within-IsSettled (λ i. n (suc i)) ps (λ i. h (suc i)) ws
Within-IsSettled n (waiting c k ∷ ps) h (w, ws) = subst (λ m. CallsAtMost m (waiting c k)) (h 0) w

-- A schedule that answers every task as often as the task makes calls leaves every task settled.
pub play-IsSettled {ℓ} :
    {A : Type ℓ} {S : Type 0} (services : Services S) (is : List ℕ) (ps : List (Promise A)) (s : S)
    → Within (turns is) ps
    → IsSettled (play services is ps s).0
unfolding turns
play-IsSettled services is ps s w =
    Within-IsSettled (turns []) (play services is ps s).0 (λ i. refl)
      (Within-play services is ps s w)

-- Settled tasks are all resolved, or one is rejected.
pub IsSettled-cases {ℓ} :
    {A : Type ℓ} (ps : List (Promise A))
    → IsSettled ps
    → ((values : List A) × (ps ≡ map resolved values))
      ⊎ ((before : List (Promise A)) × (e : Failure) × (after : List (Promise A)) × (ps
            ≡ before ++ rejected e ∷ after))
IsSettled-cases [] h = inl ([], refl)
IsSettled-cases (rejected e ∷ ps) h = inr ([], e, ps, refl)
IsSettled-cases (waiting c k ∷ ps) h = absurd h
IsSettled-cases (resolved a ∷ ps) h = elim (IsSettled-cases ps h) [
  | inl (values, e) ↦ inl (a ∷ values, ap (λ qs. resolved a ∷ qs) e)
  | inr (before, e, after, same) ↦
      inr (resolved a ∷ before, e, after, ap (λ qs. resolved a ∷ qs) same)
]

pub Within-map {ℓ κ} :
    {B : Type κ} {A : Type ℓ} (f : B → Promise A) (c : ℕ) (n : ℕ → ℕ) (xs : List B)
    → ((x : B) → CallsAtMost c (f x))
    → ((i : ℕ) → i < length xs → c ≤ n i)
    → Within n (map f xs)
Within-map f c n [] h k = tt
Within-map f c n (x ∷ xs) h k = (
  CallsAtMost-mono c (n 0) (f x) (k 0 (omega arith)) (h x),
  Within-map f c (λ i. n (suc i)) xs h (λ i small. k (suc i) (omega arith)),
)
