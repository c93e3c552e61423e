-- ===== src/Middleware.antt =====
-- src/frontend/utils/telemetry/InstrumentationMiddleware.ts: what the wrapper of every handler
-- counts and records. Other uses of the OpenTelemetry SDK have no effect on the response.
pub mod Records
use Prim.Native.Char.{code}
use Prim.Native.Nat.{compare, Ordering}
use Prim.Native.String
use opentelemetry_demo_mb3r.Prelude.{
  ℕ, String, Bool, true, false, Option, List, [], ◌∷◌, if◌then◌else◌,
}
use mathlib.Core.Option
use opentelemetry_demo_mb3r.Calls.{Failure}
use opentelemetry_demo_mb3r.Promise.{Promise, resolved, Outcome, fulfilled, failed, ◌>>=◌, settle}
use opentelemetry_demo_mb3r.Http.{Method, Response}

-- `requestCounter.add(1, { method, target, status })`.
pub record CounterEntry : Type 0 where
  pub method : Method
  pub target : String
  pub status : ℕ

-- The counter's entries, and of the span: its exceptions, its status and its HTTP status code.
pub record Telemetry : Type 0 where
  pub requests : List CounterEntry
  pub exceptions : List Failure
  pub is_error : Bool
  pub http_status_code : ℕ

abbrev pub is_question_mark : ℕ → Bool
is_question_mark c = elim (compare c b'?') [ Ordering.eq ↦ true | _ ↦ false ]

-- `const [target] = url.split('?')`.
unfoldable pub target_of : String → String
target_of String.[] = ""
target_of (String.◌∷◌ c url) =
    let rest = target_of url in if is_question_mark (code c) then "" else String.◌∷◌ c rest

abbrev pub http_status : Outcome Response → ℕ
http_status (fulfilled res) = res.status_code
http_status (failed e) = 500

-- The `catch` clause.
abbrev pub exceptions_of : Outcome Response → List Failure
exceptions_of (fulfilled res) = []
exceptions_of (failed e) = e ∷ []

abbrev pub is_failed : Outcome Response → Bool
is_failed (fulfilled res) = false
is_failed (failed e) = true

-- The `finally` clause, after the `catch` clause.
unfoldable pub report : Method → Option String → Outcome Response → Telemetry
unfolding target_of
report method url o = record {
  requests =
      record { method = method; target = target_of (Option.get_or url ""); status = http_status o }
      ∷ [];
  exceptions = exceptions_of o;
  is_error = is_failed o;
  http_status_code = http_status o;
}

-- The outcome of the handler, which is thrown again if it failed, and what was recorded.
unfoldable pub instrument :
    Method → Option String → Promise Response → Promise (Outcome Response × Telemetry)
unfolding report
instrument method url handler = settle handler >>= λ o. resolved (o, report method url o)
