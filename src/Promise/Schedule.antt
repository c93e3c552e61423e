-- ===== src/Promise/Schedule.antt =====
-- The order in which the tasks of a `Promise.all` are answered: at each step the event loop takes
-- any task that waits and hands it its answer.
use opentelemetry_demo_mb3r.Prelude.{
  ℕ, zero, suc, ◌≡◌, refl, ap, sym, ◌∙◌, ◌≢◌, List, [], ◌∷◌, ◌++◌, map, All,
}
use mathlib.Core.List.{map-append}
use opentelemetry_demo_mb3r.Calls.{
  Failure, Call, add_item, empty_cart, place_order, Reply, Callback, Services,
}
use opentelemetry_demo_mb3r.Promise.{
  Promise, resolved, rejected, waiting, Outcome, fulfilled, failed, run, outcome,
}
use opentelemetry_demo_mb3r.Promise.All.{
  all, collect, prepend, prepend-eq-fulfilled, outcomes, run-all,
}

-- The calls that change no state of a service.
abbrev pub IsQuery : Call → Type 0
IsQuery (add_item _ _) = ⊥
IsQuery (empty_cart _) = ⊥
IsQuery (place_order _) = ⊥
IsQuery _ = Unit

-- Queries leave the services as they are.
pub record IsReadOnly {S : Type 0} (services : Services S) : Type 0 where
  pub keeps : (c : Call) → IsQuery c → (s : S) → (services c s).1 ≡ s

-- Whatever the answers, the promise makes queries only.
abbrev pub Queries {ℓ} : {A : Type ℓ} → Promise A → Type ℓ
Queries (resolved a) = Unit
Queries (rejected e) = Unit
Queries (waiting c k) = IsQuery c × ((r : Callback (Reply c)) → Queries (k r))

module _ {S : Type 0} (services : Services S) where
  -- One answer to a task that waits; a settled task stays as it is.
  unfoldable pub answer {ℓ} : {A : Type ℓ} → Promise A → S → Promise A × S
  answer (waiting c k) s = let (r, s') = services c s in (k r, s')
  answer (resolved a) s = (resolved a, s)
  answer (rejected e) s = (rejected e, s)

  -- A step of the event loop: the answer to task `i`.
  unfoldable pub step {ℓ} : {A : Type ℓ} → ℕ → List (Promise A) → S → List (Promise A) × S
  unfolding answer
  step i [] s = ([], s)
  step zero (p ∷ ps) s = let (p', s') = answer p s in (p' ∷ ps, s')
  step (suc i) (p ∷ ps) s = let (ps', s') = step i ps s in (p ∷ ps', s')

  -- The steps of a schedule.
  unfoldable pub play {ℓ} : {A : Type ℓ} → List ℕ → List (Promise A) → S → List (Promise A) × S
  unfolding step
  play [] ps s = (ps, s)
  play (i ∷ is) ps s = let (ps', s') = step i ps s in play is ps' s'

module _ {S : Type 0} (services : Services S) (readonly : IsReadOnly services) where
  pub run-Queries {ℓ} : {A : Type ℓ} (p : Promise A) (s : S) → Queries p → (run services p s).1 ≡ s
  unfolding run
  run-Queries (resolved a) s q = refl
  run-Queries (rejected e) s q = refl
  run-Queries (waiting c k) s q =
      let (r, s') = services c s in run-Queries (k r) s' (q.1 r) ∙ readonly.keeps c q.0 s

  answer_state {ℓ} : {A : Type ℓ} (p : Promise A) (s : S) → Queries p → (answer services p s).1 ≡ s
  unfolding answer
  answer_state (waiting c k) s q = readonly.keeps c q.0 s
  answer_state (resolved a) s q = refl
  answer_state (rejected e) s q = refl

  outcome-answer {ℓ} :
      {A : Type ℓ} (p : Promise A) (s : S)
      → Queries p
      → outcome services (answer services p s).0 s ≡ outcome services p s
  unfolding answer run
  outcome-answer (waiting c k) s q =
      let (r, s') = services c s in
      ap (λ t. outcome services (k r) t) (sym (readonly.keeps c q.0 s))
  outcome-answer (resolved a) s q = refl
  outcome-answer (rejected e) s q = refl

  answer-Queries {ℓ} :
      {A : Type ℓ} (p : Promise A) (s : S) → Queries p → Queries (answer services p s).0
  unfolding answer
  answer-Queries (waiting c k) s q = q.1 (services c s).0
  answer-Queries (resolved a) s q = q
  answer-Queries (rejected e) s q = q

  pub step_state {ℓ} :
      {A : Type ℓ} (i : ℕ) (ps : List (Promise A)) (s : S)
      → All Queries ps
      → (step services i ps s).1 ≡ s
  unfolding step
  step_state i [] s q = refl
  step_state zero (p ∷ ps) s q = answer_state p s q.0
  step_state (suc i) (p ∷ ps) s q = step_state i ps s q.1

  pub step_outcomes {ℓ} :
      {A : Type ℓ} (i : ℕ) (ps : List (Promise A)) (s : S)
      → All Queries ps
      → map (λ p. outcome services p s) (step services i ps s).0
        ≡ map (λ p. outcome services p s) ps
  unfolding step
  step_outcomes i [] s q = refl
  step_outcomes zero (p ∷ ps) s q =
      ap (λ o. o ∷ map (λ p. outcome services p s) ps) (outcome-answer p s q.0)
  step_outcomes (suc i) (p ∷ ps) s q =
      ap (λ os. outcome services p s ∷ os) (step_outcomes i ps s q.1)

  pub step-Queries {ℓ} :
      {A : Type ℓ} (i : ℕ) (ps : List (Promise A)) (s : S)
      → All Queries ps
      → All Queries (step services i ps s).0
  unfolding step
  step-Queries i [] s q = q
  step-Queries zero (p ∷ ps) s q = (answer-Queries p s q.0, q.1)
  step-Queries (suc i) (p ∷ ps) s q = (q.0, step-Queries i ps s q.1)

  -- No schedule changes how the tasks settle.
  play_outcomes {ℓ} :
      {A : Type ℓ} (is : List ℕ) (ps : List (Promise A)) (s : S)
      → All Queries ps
      → map (λ p. outcome services p s) (play services is ps s).0
        ≡ map (λ p. outcome services p s) ps
  unfolding play
  play_outcomes [] ps s q = refl
  play_outcomes (i ∷ is) ps s q =
      ap (λ t. map (λ p. outcome services p s) (play services is (step services i ps s).0 t).0)
        (step_state i ps s q)
      ∙ play_outcomes is (step services i ps s).0 s (step-Queries i ps s q)
      ∙ step_outcomes i ps s q

  outcomes-Queries {ℓ} :
      {A : Type ℓ} (ps : List (Promise A)) (s : S)
      → All Queries ps
      → (outcomes services ps s).0 ≡ map (λ p. outcome services p s) ps
  outcomes-Queries [] s q = refl
  outcomes-Queries (p ∷ ps) s q =
      rw (run-Queries p s q.0) (ap (λ os. outcome services p s ∷ os) (outcomes-Queries ps s q.1))

  pub outcome-all {ℓ} :
      {A : Type ℓ} (ps : List (Promise A)) (s : S)
      → All Queries ps
      → outcome services (all ps) s ≡ collect (map (λ p. outcome services p s) ps)
  outcome-all ps s q = ap (λ r. r.0) (run-all services ps s) ∙ ap collect (outcomes-Queries ps s q)

collect-resolved {ℓ} :
    {A : Type ℓ} {S : Type 0} (services : Services S) (s : S) (values : List A)
    → collect (map (λ p. outcome services p s) (map resolved values)) ≡ fulfilled values
unfolding run
collect-resolved services s [] = refl
collect-resolved services s (a ∷ values) = ap (prepend a) (collect-resolved services s values)

-- Over services whose queries change nothing, whatever the schedule: if it ends with every task
-- resolved, then `Promise.all`, answered task by task, is fulfilled with the values of the tasks,
-- in the order of the list.
pub play-all {ℓ} :
    {A : Type ℓ} {S : Type 0} (services : Services S) (is : List ℕ) (ps : List (Promise A)) (s : S)
    (values : List A)
    → IsReadOnly services
    → All Queries ps
    → (play services is ps s).0 ≡ map resolved values
    → outcome services (all ps) s ≡ fulfilled values
play-all services is ps s values readonly q e =
    outcome-all services readonly ps s q
    ∙ ap collect (sym (play_outcomes services readonly is ps s q))
    ∙ ap (λ ts. collect (map (λ p. outcome services p s) ts)) e
    ∙ collect-resolved services s values

collect-ne-failed {ℓ} :
    {A : Type ℓ} (before after : List (Outcome A)) (e : Failure) (values : List A)
    → collect (before ++ failed e ∷ after) ≢ fulfilled values
collect-ne-failed [] after e values h = cc
collect-ne-failed (failed e' ∷ before) after e values h = cc
collect-ne-failed (fulfilled a ∷ before) after e values h =
    let (rest, h', same) = prepend-eq-fulfilled a (collect (before ++ failed e ∷ after)) h in
    collect-ne-failed before after e rest h'

-- And the other way round: if `Promise.all`, answered task by task, is fulfilled, then no schedule
-- rejects a task.
pub play-ne-rejected {ℓ} :
    {A : Type ℓ} {S : Type 0} (services : Services S) (is : List ℕ) (ps : List (Promise A)) (s : S)
    (values : List A) (before after : List (Promise A)) (e : Failure)
    → IsReadOnly services
    → All Queries ps
    → outcome services (all ps) s ≡ fulfilled values
    → (play services is ps s).0 ≢ before ++ rejected e ∷ after
unfolding run
play-ne-rejected services is ps s values before after e readonly q done h =
    collect-ne-failed (map (λ p. outcome services p s) before)
      (map (λ p. outcome services p s) after) e values
      (ap collect (sym (map-append (λ p. outcome services p s) before (rejected e ∷ after)))
        ∙ ap (λ ts. collect (map (λ p. outcome services p s) ts)) (sym h)
        ∙ ap collect (play_outcomes services readonly is ps s q)
        ∙ sym (outcome-all services readonly ps s q)
        ∙ done)
