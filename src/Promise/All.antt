-- ===== src/Promise/All.antt =====
-- `Promise.all`: every task runs, whatever becomes of the others; the results come in the order of
-- the list, or the rejection of a task does. The tasks are answered one after the other here, so that
-- the first rejection in time is the first of the list. Promise/Schedule.antt is about the other
-- orders, in which Promise/InTime.antt takes the first rejection in time.
use opentelemetry_demo_mb3r.Prelude.{
  ◌≡◌, refl, sym, suc, arith, length, ap, ◌∙◌, List, [], ◌∷◌, map, Forall₂,
}
use opentelemetry_demo_mb3r.Calls.{Services}
use opentelemetry_demo_mb3r.Promise.{
  Promise, resolved, rejected, waiting, Outcome, fulfilled, failed, ◌>>=◌, settle, of_outcome, run,
  outcome, run-bind,
}

abbrev pub prepend {ℓ} : {A : Type ℓ} → A → Outcome (List A) → Outcome (List A)
prepend a (fulfilled rest) = fulfilled (a ∷ rest)
prepend a (failed e) = failed e

abbrev pub collect {ℓ} : {A : Type ℓ} → List (Outcome A) → Outcome (List A)
collect [] = fulfilled []
collect (failed e ∷ os) = failed e
collect (fulfilled a ∷ os) = prepend a (collect os)

abbrev pub settle_each {ℓ} : {A : Type ℓ} → List (Promise A) → Promise (List (Outcome A))
settle_each [] = resolved []
settle_each (p ∷ ps) = settle p >>= λ o. settle_each ps >>= λ os. resolved (o ∷ os)

unfoldable pub all {ℓ} : {A : Type ℓ} → List (Promise A) → Promise (List A)
all ps = settle_each ps >>= λ os. of_outcome (collect os)

pub prepend-eq-fulfilled {κ} :
    {A : Type κ} (a : A) (o : Outcome (List A)) {values : List A}
    → prepend a o ≡ fulfilled values
    → (rest : List A) × (o ≡ fulfilled rest) × (values ≡ a ∷ rest)
prepend-eq-fulfilled a (fulfilled rest) h = (rest, refl, cc)
prepend-eq-fulfilled a (failed e) h = cc

module _ {S : Type 0} (services : Services S) where
  -- The outcomes of the tasks, each from the state that the task before it left.
  abbrev pub outcomes {ℓ} : {A : Type ℓ} → List (Promise A) → S → List (Outcome A) × S
  outcomes [] s = ([], s)
  outcomes (p ∷ ps) s =
      let (o, s') = run services p s in let (os, s'') = outcomes ps s' in (o ∷ os, s'')

  pub run-settle {ℓ} :
      {A : Type ℓ} (p : Promise A) (s : S)
      → run services (settle p) s ≡ (fulfilled (outcome services p s), (run services p s).1)
  unfolding run
  run-settle (resolved a) s = refl
  run-settle (rejected e) s = refl
  run-settle (waiting c k) s = let (r, s') = services c s in run-settle (k r) s'

  run-of_outcome {ℓ} : {A : Type ℓ} (o : Outcome A) (s : S) → run services (of_outcome o) s ≡ (o, s)
  unfolding run
  run-of_outcome (fulfilled a) s = refl
  run-of_outcome (failed e) s = refl

  run-settle_each {ℓ} :
      {A : Type ℓ} (ps : List (Promise A)) (s : S)
      → run services (settle_each ps) s ≡ (fulfilled (outcomes ps s).0, (outcomes ps s).1)
  unfolding run
  run-settle_each [] s = refl
  run-settle_each (p ∷ ps) s =
      rw (run-bind services (settle p) (λ o. settle_each ps >>= λ os. resolved (o ∷ os)) s) (
        rw (run-settle p s) (
          rw (run-bind services (settle_each ps) (λ os. resolved (outcome services p s ∷ os)) _)
            (rw (run-settle_each ps (run services p s).1) refl)))

  pub run-all {ℓ} :
      {A : Type ℓ} (ps : List (Promise A)) (s : S)
      → run services (all ps) s ≡ (collect (outcomes ps s).0, (outcomes ps s).1)
  unfolding all
  run-all ps s =
      rw (run-bind services (settle_each ps) (λ os. of_outcome (collect os)) s)
        (rw (run-settle_each ps s) (run-of_outcome (collect (outcomes ps s).0) (outcomes ps s).1))

  -- Tasks that are all fulfilled, and leave the services as they are.
  outcomes-fulfilled {ℓ κ} :
      {X : Type ℓ} {A : Type κ} (task : X → Promise A) (s : S) {xs : List X} {values : List A}
      → Forall₂ (λ x a. run services (task x) s ≡ (fulfilled a, s)) xs values
      → outcomes (map task xs) s ≡ (map fulfilled values, s)
  outcomes-fulfilled task s Forall₂.nil = refl
  outcomes-fulfilled task s (Forall₂.cons e h) = rw (e, outcomes-fulfilled task s h)

  collect-fulfilled {κ} :
      {A : Type κ} (values : List A) → collect (map fulfilled values) ≡ fulfilled values
  collect-fulfilled [] = refl
  collect-fulfilled (a ∷ values) = ap (prepend a) (collect-fulfilled values)

  pub run-all_fulfilled {ℓ κ} :
      {X : Type ℓ} {A : Type κ} (task : X → Promise A) (s : S) {xs : List X} {values : List A}
      → Forall₂ (λ x a. run services (task x) s ≡ (fulfilled a, s)) xs values
      → run services (all (map task xs)) s ≡ (fulfilled values, s)
  run-all_fulfilled task s {xs} {values} h =
      run-all (map task xs) s
      ∙ ap (λ r. (collect r.0, r.1)) (outcomes-fulfilled task s h)
      ∙ ap (λ o. (o, s)) (collect-fulfilled values)

  length-collect {κ} :
      {A : Type κ} (os : List (Outcome A)) {values : List A}
      → collect os ≡ fulfilled values
      → length values ≡ length os
  length-collect [] {values} h = ground arith
  length-collect (failed e ∷ os) h = absurd (cc)
  length-collect (fulfilled a ∷ os) {values} h =
      let (rest, h', same) = prepend-eq-fulfilled a (collect os) h in
      ap length same ∙ ap suc (length-collect os h')

  length-outcomes {κ} :
      {A : Type κ} (ps : List (Promise A)) (s : S) → length (outcomes ps s).0 ≡ length ps
  length-outcomes [] s = refl
  length-outcomes (p ∷ ps) s = ap suc (length-outcomes ps (run services p s).1)

  -- There are as many results as tasks.
  pub length-all {κ} :
      {A : Type κ} (ps : List (Promise A)) (s : S) {values : List A}
      → outcome services (all ps) s ≡ fulfilled values
      → length values ≡ length ps
  length-all ps s h =
      length-collect (outcomes ps s).0 (sym (ap (λ r. r.0) (run-all ps s)) ∙ h)
      ∙ length-outcomes ps s
