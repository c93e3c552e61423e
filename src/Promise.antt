-- ===== src/Promise.antt =====
-- Promises of the frontend's server: a computation that has settled, or waits for the answer to a
-- call. `async` functions are built with `>>=` (`await`), which skips what follows a rejection.
pub mod All
pub mod Returns
pub mod Schedule
pub mod Settled
pub mod InTime
use opentelemetry_demo_mb3r.Prelude.{◌≡◌, refl, ap, ◌∙◌, Option, none, some, List, [], ◌∷◌}
use opentelemetry_demo_mb3r.Calls.{Failure, Call, Reply, Callback, error, response, Services}

pub data Promise {ℓ} (A : Type ℓ) : Type ℓ where
  resolved : A → Promise A
  rejected : Failure → Promise A
  waiting : (c : Call) → (Callback (Reply c) → Promise A) → Promise A

-- How a promise settles.
pub data Outcome {ℓ} (A : Type ℓ) : Type ℓ where
  fulfilled : A → Outcome A
  failed : Failure → Outcome A

infixl 5 ◌>>=◌ ◌>>◌
abbrev pub ◌>>=◌ {ℓ κ} : {A : Type ℓ} {B : Type κ} → Promise A → (A → Promise B) → Promise B
resolved a >>= f = f a
rejected e >>= f = rejected e
waiting c k >>= f = waiting c (λ r. k r >>= f)

abbrev pub ◌>>◌ {ℓ κ} : {A : Type ℓ} {B : Type κ} → Promise A → Promise B → Promise B
m >> n = m >>= λ _. n

-- `error ? reject(error) : resolve(response)`, the callback of every stub.
abbrev pub settle_callback {ℓ} : {A : Type ℓ} → Callback A → Promise A
settle_callback (error e) = rejected e
settle_callback (response a) = resolved a

-- `new Promise((resolve, reject) => client.<stub>(…))`.
abbrev pub request : (c : Call) → Promise (Reply c)
request c = waiting c settle_callback

-- The outcome of a promise as a value, as `try`/`catch` sees it.
abbrev pub settle {ℓ} : {A : Type ℓ} → Promise A → Promise (Outcome A)
settle (resolved a) = resolved (fulfilled a)
settle (rejected e) = resolved (failed e)
settle (waiting c k) = waiting c (λ r. settle (k r))

abbrev pub of_outcome {ℓ} : {A : Type ℓ} → Outcome A → Promise A
of_outcome (fulfilled a) = resolved a
of_outcome (failed e) = rejected e

-- The call that a promise waits for first.
unfoldable pub first_call {ℓ} : {A : Type ℓ} → Promise A → Option Call
first_call (resolved a) = none
first_call (rejected e) = none
first_call (waiting c k) = some c

module _ {S : Type 0} (services : Services S) where
  -- Answers every call in turn.
  unfoldable pub run {ℓ} : {A : Type ℓ} → Promise A → S → Outcome A × S
  run (resolved a) s = (fulfilled a, s)
  run (rejected e) s = (failed e, s)
  run (waiting c k) s = let (r, s') = services c s in run (k r) s'

  abbrev pub outcome {ℓ} : {A : Type ℓ} → Promise A → S → Outcome A
  outcome p s = (run p s).0

  -- The calls that are made, in their order.
  unfoldable pub calls {ℓ} : {A : Type ℓ} → Promise A → S → List Call
  calls (resolved a) s = []
  calls (rejected e) s = []
  calls (waiting c k) s = let (r, s') = services c s in c ∷ calls (k r) s'

  abbrev pub continue {ℓ κ} :
      {A : Type ℓ} {B : Type κ} → (A → Promise B) → Outcome A × S → Outcome B × S
  continue f (fulfilled a, s) = run (f a) s
  continue f (failed e, s) = (failed e, s)

  pub run-bind {ℓ κ} :
      {A : Type ℓ} {B : Type κ} (p : Promise A) (f : A → Promise B) (s : S)
      → run (p >>= f) s ≡ continue f (run p s)
  unfolding run
  run-bind (resolved a) f s = refl
  run-bind (rejected e) f s = refl
  run-bind (waiting c k) f s = let (r, s') = services c s in run-bind (k r) f s'

  -- The answer to a call, put in.
  pub run-waiting {ℓ} :
      {A : Type ℓ} (c : Call) (k : Callback (Reply c) → Promise A) (s : S) {r : Callback (Reply c)}
      {s' : S}
      → services c s ≡ (r, s')
      → run (waiting c k) s ≡ run (k r) s'
  unfolding run
  run-waiting c k s e = ap (λ x. run (k x.0) x.1) e

  pub run-resolved {ℓ} : {A : Type ℓ} (a : A) (s : S) → run (resolved a) s ≡ (fulfilled a, s)
  unfolding run
  run-resolved a s = refl

  pub run-rejected {ℓ} :
      {A : Type ℓ} (e : Failure) (s : S) → run {A = A} (rejected e) s ≡ (failed e, s)
  unfolding run
  run-rejected e s = refl

  pub run-bind_fulfilled {ℓ κ} :
      {A : Type ℓ} {B : Type κ} (p : Promise A) (f : A → Promise B) (s : S) {a : A} {s' : S}
      → run p s ≡ (fulfilled a, s')
      → run (p >>= f) s ≡ run (f a) s'
  run-bind_fulfilled p f s e = run-bind p f s ∙ ap (continue f) e

  pub calls-waiting {ℓ} :
      {A : Type ℓ} (c : Call) (k : Callback (Reply c) → Promise A) (s : S) {r : Callback (Reply c)}
      {s' : S}
      → services c s ≡ (r, s')
      → calls (waiting c k) s ≡ c ∷ calls (k r) s'
  unfolding calls
  calls-waiting c k s e = ap (λ x. c ∷ calls (k x.0) x.1) e

  pub calls-rejected {ℓ} : (A : Type ℓ) (e : Failure) (s : S) → calls {A = A} (rejected e) s ≡ []
  unfolding calls
  calls-rejected A e s = refl
