-- ===== src/Middleware/Records.antt =====
-- What src/frontend/utils/telemetry/InstrumentationMiddleware.ts records of a request.
use Prim.Native.Char.{Char, code}
use Prim.Native.String
use opentelemetry_demo_mb3r.Prelude.{
  ℕ, String, ◌≡◌, refl, true, false, Option, [], ◌∷◌, arith, ap, sym, ◌∙◌, ◌⊎◌, inl, inr,
  Bool-cases,
}
use mathlib.Core.Option
use opentelemetry_demo_mb3r.Calls.{Services}
use opentelemetry_demo_mb3r.Promise.{
  Promise, Outcome, fulfilled, failed, settle, run, outcome, run-bind, resolved, continue,
}
use opentelemetry_demo_mb3r.Promise.All.{run-settle}
use opentelemetry_demo_mb3r.Http.{Method, Response}
use opentelemetry_demo_mb3r.Middleware.{
  Telemetry, is_question_mark, target_of, report, instrument, CounterEntry,
}

abbrev pub entry : Method → Option String → ℕ → CounterEntry
entry method url status = record {
  method = method;
  target = target_of (Option.get_or url "");
  status = status;
}

-- What the telemetry of a request says, by the outcome of its handler.
abbrev pub Records : Method → Option String → Outcome Response → Telemetry → Type 0
Records method url (fulfilled res) t =
    (t.requests ≡ entry method url res.status_code ∷ [])
    × (t.exceptions ≡ [])
    × (t.is_error ≡ false)
    × (t.http_status_code ≡ res.status_code)
Records method url (failed e) t =
    (t.requests ≡ entry method url 500 ∷ [])
    × (t.exceptions ≡ e ∷ [])
    × (t.is_error ≡ true)
    × (t.http_status_code ≡ 500)

report-Records :
    (method : Method) (url : Option String) (o : Outcome Response)
    → Records method url o (report method url o)
unfolding report
report-Records method url (fulfilled res) = (refl, refl, refl, refl)
report-Records method url (failed e) = (refl, refl, refl, refl)

abbrev pub HasNoQuery : String → Type 0
HasNoQuery String.[] = Unit
HasNoQuery (String.◌∷◌ c s) = (is_question_mark (code c) ≡ false) × HasNoQuery s

-- The wrapper always settles. It hands on the outcome of the handler and the state that the
-- handler's calls left. It counts one request, with the method, the URL up to its query and the
-- status: that of the response, or 500 if the handler failed. The span gets the same status; it is
-- marked as an error, with the failure as its only exception, exactly if the handler failed.
pub instrument_lem :
    {S : Type 0} (services : Services S) (method : Method) (url : Option String)
    (handler : Promise Response) (s : S)
    → (t : Telemetry) × (run services (instrument method url handler) s
        ≡ (fulfilled (outcome services handler s, t), (run services handler s).1))
      × Records method url (outcome services handler s) t
unfolding instrument run
instrument_lem services method url handler s =
    let o = outcome services handler s in
    (
      report method url o,
      run-bind services (settle handler) (λ o. resolved (o, report method url o)) s
          ∙ ap (continue services (λ o. resolved (o, report method url o)))
              (run-settle services handler s),
      report-Records method url o,
    )

-- Where the query of a URL begins.
abbrev pub Split : String → String → Type 0
Split url target =
    (url ≡ target)
    ⊎ ((c : Char) × (rest : String) × (code c ≡ b'?')
        × (url ≡ String.◌++◌ target (String.◌∷◌ c rest)))

Split-cons :
    (d : Char) (url target : String)
    → Split url target
    → Split (String.◌∷◌ d url) (String.◌∷◌ d target)
Split-cons d url target (inl e) = inl (ap (String.◌∷◌ d) e)
Split-cons d url target (inr (c, rest, mark, e)) =
    inr (c, rest, mark, ap (String.◌∷◌ d) e ∙ sym (String.append.cons d target (String.◌∷◌ c rest)))

-- The target is what stands in front of the first question mark of the URL, all of it if there is
-- none.
pub target_of_lem : (url : String) → HasNoQuery (target_of url) × Split url (target_of url)
unfolding target_of
target_of_lem String.[] = (tt, inl refl)
target_of_lem (String.◌∷◌ c url) = elim (Bool-cases (is_question_mark (code c))) [
  | inl found ↦
      rw found (tt, inr (c, url, ground arith, sym (String.append.nil (String.◌∷◌ c url))))
  | inr other ↦
      rw other
        ((other, (target_of_lem url).0), Split-cons c url (target_of url) (target_of_lem url).1)
]
