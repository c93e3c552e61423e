-- ===== src/Promise/InTime.antt =====
-- `Promise.all` in time: it is rejected with the first rejection that happens while the event loop
-- answers the tasks, and fulfilled once every task is.
use opentelemetry_demo_mb3r.Prelude.{
  ℕ, ◌≡◌, refl, sym, ap, subst, Option, none, some, List, [], ◌∷◌, map, All, Option-cases, inl, inr,
  ◌⊎◌,
}
use opentelemetry_demo_mb3r.Calls.{Services}
use opentelemetry_demo_mb3r.Promise.{
  Promise, resolved, rejected, waiting, Outcome, fulfilled, failed, outcome,
}
use opentelemetry_demo_mb3r.Promise.All.{prepend}
use opentelemetry_demo_mb3r.Promise.Schedule.{
  IsReadOnly, Queries, step, play, step_state, step_outcomes, step-Queries,
}
use opentelemetry_demo_mb3r.Promise.Settled.{IsSettled}

abbrev pub with_value : {A : Type 0} → A → Option (Outcome (List A)) → Option (Outcome (List A))
with_value a none = none
with_value a (some o) = some (prepend a o)

-- While a task waits, the whole can only be rejected.
abbrev pub only_failure : {A : Type 0} → Option (Outcome (List A)) → Option (Outcome (List A))
only_failure (some (failed e)) = some (failed e)
only_failure _ = none

-- What the tasks have made of the whole so far.
abbrev pub verdict : {A : Type 0} → List (Promise A) → Option (Outcome (List A))
verdict [] = some (fulfilled [])
verdict (resolved a ∷ ps) = with_value a (verdict ps)
verdict (rejected e ∷ ps) = some (failed e)
verdict (waiting c k ∷ ps) = only_failure (verdict ps)

abbrev pub first_of : {A : Type 0} → Option A → Option A → Option A
first_of none later = later
first_of (some a) later = some a

-- One of a list.
abbrev pub IsOneOf : {A : Type 0} → A → List A → Type 0
IsOneOf a [] = ⊥
IsOneOf a (x ∷ xs) = (x ≡ a) ⊎ IsOneOf a xs

-- An outcome of the whole that goes with those of the tasks: all values, or one of the failures.
abbrev pub Agrees : {A : Type 0} → Outcome (List A) → List (Outcome A) → Type 0
Agrees (fulfilled values) os = os ≡ map fulfilled values
Agrees (failed e) os = IsOneOf (failed e) os

abbrev pub AgreesSome : {A : Type 0} → Option (Outcome (List A)) → List (Outcome A) → Type 0
AgreesSome none os = Unit
AgreesSome (some o) os = Agrees o os

with_value-AgreesSome :
    {A : Type 0} (a : A) (v : Option (Outcome (List A))) (os : List (Outcome A))
    → AgreesSome v os
    → AgreesSome (with_value a v) (fulfilled a ∷ os)
with_value-AgreesSome a none os h = tt
with_value-AgreesSome a (some (fulfilled values)) os h = ap (λ l. fulfilled a ∷ l) h
with_value-AgreesSome a (some (failed e)) os h = inr h

only_failure-AgreesSome :
    {A : Type 0} (o : Outcome A) (v : Option (Outcome (List A))) (os : List (Outcome A))
    → AgreesSome v os
    → AgreesSome (only_failure v) (o ∷ os)
only_failure-AgreesSome o none os h = tt
only_failure-AgreesSome o (some (fulfilled values)) os h = tt
only_failure-AgreesSome o (some (failed e)) os h = inr h

first_of-AgreesSome :
    {A : Type 0} (v later : Option (Outcome (List A))) (os : List (Outcome A))
    → AgreesSome v os
    → AgreesSome later os
    → AgreesSome (first_of v later) os
first_of-AgreesSome none later os h k = k
first_of-AgreesSome (some o) later os h k = h

verdict-IsSettled :
    {A : Type 0} (ps : List (Promise A))
    → IsSettled ps
    → (o : Outcome (List A)) × (verdict ps ≡ some o)
verdict-IsSettled [] h = (fulfilled [], refl)
verdict-IsSettled (resolved a ∷ ps) h =
    let (o, e) = verdict-IsSettled ps h in (prepend a o, rw e refl)
verdict-IsSettled (rejected e ∷ ps) h = (failed e, refl)
verdict-IsSettled (waiting c k ∷ ps) h = absurd h

module _ {S : Type 0} (services : Services S) where
  -- `Promise.all` of the tasks, over the answers of a schedule; `none` while it is pending.
  unfoldable pub play_all : {A : Type 0} → List ℕ → List (Promise A) → S → Option (Outcome (List A))
  unfolding step
  play_all [] ps s = verdict ps
  play_all (i ∷ is) ps s =
      let (ps', s') = step services i ps s in first_of (verdict ps) (play_all is ps' s')

  verdict-AgreesSome :
      {A : Type 0} (ps : List (Promise A)) (s : S)
      → AgreesSome (verdict ps) (map (λ p. outcome services p s) ps)
  unfolding opentelemetry_demo_mb3r.Promise.run
  verdict-AgreesSome [] s = refl
  verdict-AgreesSome (resolved a ∷ ps) s =
      with_value-AgreesSome a (verdict ps) (map (λ p. outcome services p s) ps)
        (verdict-AgreesSome ps s)
  verdict-AgreesSome (rejected e ∷ ps) s = inl refl
  verdict-AgreesSome (waiting c k ∷ ps) s =
      only_failure-AgreesSome (outcome services (waiting c k) s) (verdict ps)
        (map (λ p. outcome services p s) ps) (verdict-AgreesSome ps s)

  -- Over services whose queries change nothing, whatever the schedule: the whole is fulfilled with
  -- the values of all tasks, or rejected with the failure of one of them.
  pub play_all-AgreesSome :
      {A : Type 0} (is : List ℕ) (ps : List (Promise A)) (s : S)
      → IsReadOnly services
      → All Queries ps
      → AgreesSome (play_all is ps s) (map (λ p. outcome services p s) ps)
  unfolding play_all
  play_all-AgreesSome [] ps s readonly q = verdict-AgreesSome ps s
  play_all-AgreesSome (i ∷ is) ps s readonly q =
      let ps' = (step services i ps s).0 in
      first_of-AgreesSome (verdict ps) (play_all is ps' (step services i ps s).1)
        (map (λ p. outcome services p s) ps) (verdict-AgreesSome ps s)
        (subst (λ t. AgreesSome (play_all is ps' t) (map (λ p. outcome services p s) ps))
          (sym (step_state services readonly i ps s q))
          (subst (AgreesSome (play_all is ps' s)) (step_outcomes services readonly i ps s q)
            (play_all-AgreesSome is ps' s readonly (step-Queries services readonly i ps s q))))

  -- A schedule that leaves every task settled settles the whole.
  pub play_all-IsSettled :
      {A : Type 0} (is : List ℕ) (ps : List (Promise A)) (s : S)
      → IsSettled (play services is ps s).0
      → (o : Outcome (List A)) × (play_all is ps s ≡ some o)
  unfolding play_all play
  play_all-IsSettled [] ps s h = verdict-IsSettled ps h
  play_all-IsSettled (i ∷ is) ps s h = elim (Option-cases (verdict ps)) [
    | inr (o, e) ↦ (o, rw e refl)
    | inl e ↦
        let (o, later) =
          play_all-IsSettled is (step services i ps s).0 (step services i ps s).1 h in
        (o, rw e later)
  ]
