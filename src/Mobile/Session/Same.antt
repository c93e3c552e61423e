-- ===== src/Mobile/Session/Same.antt =====
-- The sessions that calls of the mobile app return, in any interleaving.
use mathlib.Core.Option.{some-injective}
use opentelemetry_demo_mb3r.Prelude.{
  ℕ, zero, suc, ◌≡◌, refl, sym, ◌∙◌, ◌⊎◌, inl, inr, Option, none, some, List, [], ◌∷◌, All,
}
use opentelemetry_demo_mb3r.Mobile.Session.{
  MobileSession, SessionCall, reading, writing, written, returned, storing, stored, SessionApp,
  SessionStep, start, get_session, set_session_value, go_on, resume, resume_at, session_step,
  session_steps, returned_by,
}

-- Nothing but `getSession` is called.
abbrev pub IsGet : SessionStep → Type 0
IsGet (set_session_value value) = ⊥
IsGet _ = Unit

-- A call that is about to write finds no session, or the one that it is going to write; one that has
-- returned found its session stored.
abbrev pub IsSettled : MobileSession → Option MobileSession → SessionCall → Type 0
IsSettled default_session storage reading = Unit
IsSettled default_session storage writing = (storage ≡ none) ⊎ (storage ≡ some default_session)
IsSettled default_session storage written = storage ≡ some default_session
IsSettled default_session storage (returned session) = storage ≡ some session
IsSettled default_session storage (storing session) = ⊥
IsSettled default_session storage stored = ⊥

abbrev pub AreSettled : SessionApp → Type 0
AreSettled app = All (IsSettled app.default_session app.storage) app.calls

-- A storage keeps the session that it holds, and is filled with the default session only.
abbrev Keeps : MobileSession → Option MobileSession → Option MobileSession → Type 0
Keeps default_session storage storage' =
    (storage' ≡ storage) ⊎ ((storage ≡ none) × (storage' ≡ some default_session))

Keeps-some :
    (default_session : MobileSession) (storage storage' : Option MobileSession)
    (session : MobileSession)
    → Keeps default_session storage storage'
    → storage ≡ some session
    → storage' ≡ some session
Keeps-some d o o' s (inl e) h = e ∙ h
Keeps-some d o o' s (inr p) h = absurd (cc (p.0, h))

Keeps-IsSettled :
    (default_session : MobileSession) (storage storage' : Option MobileSession) (call : SessionCall)
    → Keeps default_session storage storage'
    → IsSettled default_session storage call
    → IsSettled default_session storage' call
Keeps-IsSettled d o o' reading k h = tt
Keeps-IsSettled d o o' writing (inl e) (inl h) = inl (e ∙ h)
Keeps-IsSettled d o o' writing (inl e) (inr h) = inr (e ∙ h)
Keeps-IsSettled d o o' writing (inr p) h = inr p.1
Keeps-IsSettled d o o' written k h = Keeps-some d o o' d k h
Keeps-IsSettled d o o' (returned s) k h = Keeps-some d o o' s k h
Keeps-IsSettled d o o' (storing s) k h = h
Keeps-IsSettled d o o' stored k h = h

resume-Keeps :
    (d : MobileSession) (call : SessionCall) (o : Option MobileSession)
    → IsSettled d o call
    → Keeps d o (resume d call o).1 × IsSettled d (resume d call o).1 (resume d call o).0
unfolding resume
resume-Keeps d reading none h = (inl refl, inl refl)
resume-Keeps d reading (some s) h = (inl refl, refl)
resume-Keeps d writing o (inl e) = (inr (e, refl), refl)
resume-Keeps d writing o (inr e) = (inl (sym e), refl)
resume-Keeps d written o h = (inl refl, h)
resume-Keeps d (returned s) o h = (inl refl, h)
resume-Keeps d (storing s) o h = absurd h
resume-Keeps d stored o h = absurd h

Keeps-All :
    (d : MobileSession) (o o' : Option MobileSession) (calls : List SessionCall)
    → Keeps d o o'
    → All (IsSettled d o) calls
    → All (IsSettled d o') calls
Keeps-All d o o' [] k h = tt
Keeps-All d o o' (call ∷ calls) k h =
    (Keeps-IsSettled d o o' call k h.0, Keeps-All d o o' calls k h.1)

resume_at-Keeps :
    (d : MobileSession) (i : ℕ) (calls : List SessionCall) (o : Option MobileSession)
    → All (IsSettled d o) calls
    → Keeps d o (resume_at d i calls o).1
      × All (IsSettled d (resume_at d i calls o).1) (resume_at d i calls o).0
unfolding resume_at
resume_at-Keeps d i [] o h = (inl refl, tt)
resume_at-Keeps d zero (call ∷ calls) o h =
    let (k, now) = resume-Keeps d call o h.0 in
    (k, (now, Keeps-All d o (resume d call o).1 calls k h.1))
resume_at-Keeps d (suc i) (call ∷ calls) o h =
    let (k, rest) = resume_at-Keeps d i calls o h.1 in
    (k, (Keeps-IsSettled d o (resume_at d i calls o).1 call k h.0, rest))

session_step-AreSettled :
    (step : SessionStep) (app : SessionApp)
    → IsGet step
    → AreSettled app
    → AreSettled (session_step step app)
unfolding session_step
session_step-AreSettled (start v4) app g h = tt
session_step-AreSettled get_session app g h = (tt, h)
session_step-AreSettled (set_session_value value) app g h = absurd g
session_step-AreSettled (go_on i) app g h =
    (resume_at-Keeps app.default_session i app.calls app.storage h).1

session_step_kept :
    (step : SessionStep) (app : SessionApp) (session : MobileSession)
    → IsGet step
    → AreSettled app
    → app.storage ≡ some session
    → (session_step step app).storage ≡ some session
unfolding session_step
session_step_kept (start v4) app s g h e = e
session_step_kept get_session app s g h e = e
session_step_kept (set_session_value value) app s g h e = absurd g
session_step_kept (go_on i) app s g h e =
    Keeps-some app.default_session app.storage _ s
      (resume_at-Keeps app.default_session i app.calls app.storage h).0 e

pub session_steps-AreSettled :
    (steps : List SessionStep) (app : SessionApp)
    → All IsGet steps
    → AreSettled app
    → AreSettled (session_steps steps app)
unfolding session_steps
session_steps-AreSettled [] app g h = h
session_steps-AreSettled (step ∷ rest) app g h =
    session_steps-AreSettled rest (session_step step app) g.1
      (session_step-AreSettled step app g.0 h)

session_steps_kept :
    (steps : List SessionStep) (app : SessionApp) (session : MobileSession)
    → All IsGet steps
    → AreSettled app
    → app.storage ≡ some session
    → (session_steps steps app).storage ≡ some session
unfolding session_steps
session_steps_kept [] app s g h e = e
session_steps_kept (step ∷ rest) app s g h e =
    session_steps_kept rest (session_step step app) s g.1 (session_step-AreSettled step app g.0 h)
      (session_step_kept step app s g.0 h e)

returned_by-stored :
    (d : MobileSession) (o : Option MobileSession) (calls : List SessionCall) (i : ℕ)
    (s : MobileSession)
    → All (IsSettled d o) calls
    → returned_by i calls ≡ some s
    → o ≡ some s
returned_by-stored d o [] i s h e = absurd (cc)
returned_by-stored d o (reading ∷ calls) zero s h e = absurd (cc)
returned_by-stored d o (writing ∷ calls) zero s h e = absurd (cc)
returned_by-stored d o (written ∷ calls) zero s h e = absurd (cc)
returned_by-stored d o (returned t ∷ calls) zero s h e = h.0 ∙ e
returned_by-stored d o (storing t ∷ calls) zero s h e = absurd h.0
returned_by-stored d o (stored ∷ calls) zero s h e = absurd h.0
returned_by-stored d o (call ∷ calls) (suc i) s h e = returned_by-stored d o calls i s h.1 e

-- While `getSession` alone is called: the calls of the app, in any interleaving and over any number
-- of starts of the app, all return one session; what one call has returned, every call returns later.
pub get_session_same :
    (steps later : List SessionStep) (app : SessionApp) (i j : ℕ) (s t : MobileSession)
    → app.calls ≡ []
    → All IsGet steps
    → All IsGet later
    → returned_by i (session_steps steps app).calls ≡ some s
    → returned_by j (session_steps later (session_steps steps app)).calls ≡ some t
    → t ≡ s
get_session_same steps later app i j s t none_yet g g' e e' =
    let there = session_steps steps app in
    let h = session_steps-AreSettled steps app g (rw none_yet tt) in
    let kept =
      session_steps_kept later there s g' h
        (returned_by-stored there.default_session there.storage there.calls i s h e) in
    let after = session_steps later there in
    some-injective _ _ (
      sym (
        returned_by-stored after.default_session after.storage after.calls j t
          (session_steps-AreSettled later there g' h) e')
      ∙ kept)
