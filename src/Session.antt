-- ===== src/Session.antt =====
-- src/frontend/gateways/Session.gateway.ts. The local storage is what the key `session` holds;
-- this file alone writes it, so that a text there stands for the session that was written. The
-- session with a random `userId` that a page load makes, `defaultSession`, is a parameter.
-- `setSessionValue` is called in a browser only.
pub mod Visits
use opentelemetry_demo_mb3r.Prelude.{String, Bool, true, false, Option, none, some}

pub record Session : Type 0 where
  pub user_id : String
  pub currency_code : String

-- The arguments `key` and `value` of `setSessionValue`.
pub data SessionValue : Type 0 where
  user_id currency_code : String → SessionValue

abbrev pub with_value : SessionValue → Session → Session
with_value (SessionValue.user_id value) session = record session { user_id = value }
with_value (SessionValue.currency_code value) session = record session { currency_code = value }

module _ (default_session : Session) where
  -- The session, and the storage after the call; `has_window` is false on the server.
  unfoldable pub get_session : Bool → Option Session → Session × Option Session
  get_session false storage = (default_session, storage)
  get_session true none = (default_session, some default_session)
  get_session true (some session) = (session, some session)

  unfoldable pub set_session_value : SessionValue → Option Session → Option Session
  unfolding get_session
  set_session_value value storage = some (with_value value (get_session true storage).0)
