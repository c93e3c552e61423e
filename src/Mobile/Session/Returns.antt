-- ===== src/Mobile/Session/Returns.antt =====
-- That the calls of the mobile app's session return, and with which session.
use mathlib.Core.Option
use opentelemetry_demo_mb3r.Prelude.{
  ◌<◌, length, ℕ, zero, suc, ◌≡◌, refl, inl, inr, Option, none, some, List, [], ◌∷◌, All, arith,
}
use opentelemetry_demo_mb3r.Mobile.Session.{
  MobileSession, SessionCall, reading, writing, written, returned, storing, stored, SessionApp,
  SessionStep, go_on, resume, resume_at, session_step, session_steps, returned_by,
}
use opentelemetry_demo_mb3r.Mobile.Session.Same.{IsGet, IsSettled, session_steps-AreSettled}

-- A call that goes on three times in a row.
abbrev pub thrice : ℕ → List SessionStep
thrice i = go_on i ∷ go_on i ∷ go_on i ∷ []

resume_thrice :
    (d : MobileSession) (call : SessionCall) (o : Option MobileSession)
    → IsSettled d o call
    → (let (call', o') = resume d call o in
        let (call'', o'') = resume d call' o' in
        (resume d call'' o'').0 ≡ returned (Option.get_or o d))
unfolding resume
resume_thrice d reading none h = refl
resume_thrice d reading (some s) h = refl
resume_thrice d writing o (inl e) = rw e refl
resume_thrice d writing o (inr e) = rw e refl
resume_thrice d written o h = rw h refl
resume_thrice d (returned s) o h = rw h refl
resume_thrice d (storing s) o h = absurd h
resume_thrice d stored o h = absurd h

resume_at_thrice :
    (d : MobileSession) (i : ℕ) (calls : List SessionCall) (o : Option MobileSession)
    → i < length calls
    → All (IsSettled d o) calls
    → (let (calls', o') = resume_at d i calls o in
        let (calls'', o'') = resume_at d i calls' o' in
        returned_by i (resume_at d i calls'' o'').0 ≡ some (Option.get_or o d))
unfolding resume_at
resume_at_thrice d i [] o small h = absurd (omega arith)
resume_at_thrice d zero (call ∷ calls) o small h = rw (resume_thrice d call o h.0) refl
resume_at_thrice d (suc i) (call ∷ calls) o small h = resume_at_thrice d i calls o (omega arith) h.1

-- While `getSession` alone is called: each of its calls, in whatever interleaving it has come so far,
-- returns after going on three times, with the session that is stored, or with the default session of the
-- app if none is.
pub get_session_returns :
    (steps : List SessionStep) (app : SessionApp) (i : ℕ)
    → app.calls ≡ []
    → All IsGet steps
    → i < length (session_steps steps app).calls
    → (let there = session_steps steps app in
        returned_by i (session_steps (thrice i) there).calls
        ≡ some (Option.get_or there.storage there.default_session))
unfolding session_steps session_step
get_session_returns steps app i none_yet g small =
    let there = session_steps steps app in
    resume_at_thrice there.default_session i there.calls there.storage small
      (session_steps-AreSettled steps app g (rw none_yet tt))
