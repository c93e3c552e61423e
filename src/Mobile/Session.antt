-- ===== src/Mobile/Session.antt =====
-- src/react-native-app/gateways/Session.gateway.ts. Each access of the asynchronous storage lets
-- other calls go on, so that a run of the app is a list of steps: a call begins, or one goes on by an
-- access, or from its last one to its end. The storage is what the key `session` holds; this file alone writes it, so that a text there
-- stands for the session that was written, and a missing or empty text for `none`. A start of the app
-- makes a `defaultSession` with a random `userId`, and ends the calls of the app that ran before.
pub mod Same
pub mod Returns
use opentelemetry_demo_mb3r.Prelude.{ℕ, zero, suc, String, Option, none, some, List, [], ◌∷◌}

-- What is stored has no more fields than were written.
pub record MobileSession : Type 0 where
  pub user_id : Option String
  pub currency_code : Option String

pub data MobileValue : Type 0 where
  user_id currency_code : String → MobileValue

-- How far a call has come: `getSession` reads, writes, has written and returns, `setSessionValue`
-- stores.
pub data SessionCall : Type 0 where
  reading writing written : SessionCall
  returned : MobileSession → SessionCall
  storing : MobileSession → SessionCall
  stored : SessionCall

pub record SessionApp : Type 0 where
  pub storage : Option MobileSession
  pub default_session : MobileSession
  pub calls : List SessionCall

pub data SessionStep : Type 0 where
  start : String → SessionStep
  get_session : SessionStep
  set_session_value : MobileValue → SessionStep
  go_on : ℕ → SessionStep

-- `defaultSession`, with the text of `v4()`.
abbrev pub default_of : String → MobileSession
default_of v4 = record { user_id = some v4; currency_code = some "USD" }

-- `{ ...session, [key]: value }`, where `session` is a promise, which has no fields of its own.
abbrev pub only : MobileValue → MobileSession
only (MobileValue.user_id value) = record { user_id = some value; currency_code = none }
only (MobileValue.currency_code value) = record { user_id = none; currency_code = some value }

-- One access of the storage by a call, or its return.
unfoldable pub resume :
    MobileSession → SessionCall → Option MobileSession → SessionCall × Option MobileSession
resume default_session reading none = (writing, none)
resume default_session reading (some session) = (returned session, some session)
resume default_session writing storage = (written, some default_session)
resume default_session written storage = (returned default_session, storage)
resume default_session (returned session) storage = (returned session, storage)
resume default_session (storing session) storage = (stored, some session)
resume default_session stored storage = (stored, storage)

abbrev pub beside :
    SessionCall → List SessionCall × Option MobileSession → List SessionCall × Option MobileSession
beside call (calls, storage) = (call ∷ calls, storage)

abbrev pub alone :
    List SessionCall → SessionCall × Option MobileSession → List SessionCall × Option MobileSession
alone calls (call, storage) = (call ∷ calls, storage)

unfoldable pub resume_at :
    MobileSession
    → ℕ
    → List SessionCall
    → Option MobileSession
    → List SessionCall × Option MobileSession
unfolding resume
resume_at default_session i [] storage = ([], storage)
resume_at default_session zero (call ∷ calls) storage =
    alone calls (resume default_session call storage)
resume_at default_session (suc i) (call ∷ calls) storage =
    beside call (resume_at default_session i calls storage)

abbrev pub with_calls : SessionApp → List SessionCall × Option MobileSession → SessionApp
with_calls app (calls, storage) = record app { storage = storage; calls = calls }

unfoldable pub session_step : SessionStep → SessionApp → SessionApp
unfolding resume_at
session_step (start v4) app = record app { default_session = default_of v4; calls = [] }
session_step get_session app = record app { calls = reading ∷ app.calls }
session_step (set_session_value value) app = record app {
  calls = storing (only value) ∷ (reading ∷ app.calls);
}
session_step (go_on i) app = with_calls app (resume_at app.default_session i app.calls app.storage)

unfoldable pub session_steps : List SessionStep → SessionApp → SessionApp
unfolding session_step
session_steps [] app = app
session_steps (step ∷ rest) app = session_steps rest (session_step step app)

-- What a call has returned.
abbrev pub returned_by : ℕ → List SessionCall → Option MobileSession
returned_by i [] = none
returned_by zero (returned session ∷ calls) = some session
returned_by zero (call ∷ calls) = none
returned_by (suc i) (call ∷ calls) = returned_by i calls
