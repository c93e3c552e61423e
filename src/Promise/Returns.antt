-- ===== src/Promise/Returns.antt =====
-- What holds of every value that a promise is fulfilled with, whatever the services answer.
use opentelemetry_demo_mb3r.Prelude.{◌≡◌, subst}
use opentelemetry_demo_mb3r.Calls.{Call, Reply, Callback, Services}
use opentelemetry_demo_mb3r.Promise.{
  Promise, resolved, rejected, waiting, fulfilled, ◌>>=◌, settle_callback, run, outcome,
}

abbrev Each {ℓ κ} : {A : Type ℓ} → (A → Type κ) → Promise A → Type κ
Each P (resolved a) = P a
Each P (rejected e) = Unit
Each P (waiting c k) = (r : Callback (Reply c)) → Each P (k r)

pub record Returns {ℓ κ} {A : Type ℓ} (P : A → Type κ) (p : Promise A) : Type κ where
  each : Each P p

module _ {ℓ κ} {A : Type ℓ} {P : A → Type κ} where
  pub Returns-resolved : {a : A} → P a → Returns P (resolved a)
  Returns-resolved h = record { each = h }

  pub Returns-outcome :
      {S : Type 0} (services : Services S) (p : Promise A) (s : S) (a : A)
      → Returns P p
      → outcome services p s ≡ fulfilled a
      → P a
  unfolding run
  Returns-outcome services (resolved b) s a h e = subst P (cc) h.each
  Returns-outcome services (rejected x) s a h e = absurd (cc)
  Returns-outcome services (waiting c k) s a h e =
      let (r, s') = services c s in
      Returns-outcome services (k r) s' a (record { each = h.each r }) e

module _ {ℓ κ μ} {A : Type ℓ} {B : Type κ} {P : B → Type μ} where
  Each-bind : (p : Promise A) (f : A → Promise B) → ((a : A) → Returns P (f a)) → Each P (p >>= f)
  Each-bind (resolved a) f h = (h a).each
  Each-bind (rejected e) f h = tt
  Each-bind (waiting c k) f h = λ r. Each-bind (k r) f h

  pub Returns-bind :
      (p : Promise A) (f : A → Promise B) → ((a : A) → Returns P (f a)) → Returns P (p >>= f)
  Returns-bind p f h = record { each = Each-bind p f h }

module _ {κ μ} {B : Type κ} {P : B → Type μ} where
  -- The same for a stub's call.
  pub Returns-request :
      {c : Call} {f : Reply c → Promise B}
      → ((a : Reply c) → Returns P (f a))
      → Returns P (waiting c (λ r. settle_callback r >>= f))
  Returns-request {f} h = record { each = λ r. Each-bind (settle_callback r) f h }

  pub Returns-waiting :
      {c : Call} {k : Callback (Reply c) → Promise B}
      → ((r : Callback (Reply c)) → Returns P (k r))
      → Returns P (waiting c k)
  Returns-waiting h = record { each = λ r. (h r).each }

pub ruleset returns_rules = (Returns-resolved, Returns-bind, Returns-request, Returns-waiting)
