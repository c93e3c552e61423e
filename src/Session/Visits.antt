-- ===== src/Session/Visits.antt =====
-- A visitor's page loads and selections of a currency, over src/frontend/gateways/Session.gateway.ts.
use opentelemetry_demo_mb3r.Prelude.{String, ◌≡◌, refl, ap, true, Option, none, some, List, [], ◌∷◌}
use opentelemetry_demo_mb3r.Session.{Session, SessionValue, get_session, set_session_value}

-- What the pages do with the session: a page is loaded, with a default session of its own, and
-- reads it; and then the visitor may select a currency.
pub data Visit : Type 0 where
  load : Session → Visit
  select : Session → String → Visit

unfoldable pub visit : Visit → Option Session → Option Session
unfolding get_session set_session_value
visit (load fresh_session) storage = (get_session fresh_session true storage).1
visit (select fresh_session code) storage =
    set_session_value fresh_session (SessionValue.currency_code code) storage

unfoldable pub visits : List Visit → Option Session → Option Session
unfolding visit
visits [] storage = storage
visits (v ∷ vs) storage = visits vs (visit v storage)

-- The currency selected last, or the one from before.
abbrev pub selected : String → List Visit → String
selected code [] = code
selected code (load _ ∷ vs) = selected code vs
selected code (select _ code' ∷ vs) = selected code' vs

kept_session :
    (vs : List Visit) (session : Session)
    → visits vs (some session)
      ≡ some
          (record { user_id = session.user_id; currency_code = selected session.currency_code vs })
unfolding visits
kept_session [] session = refl
kept_session (load _ ∷ vs) session = kept_session vs session
kept_session (select _ code ∷ vs) session =
    kept_session vs (record session { currency_code = code })

-- After a first page load that found no session, and any number of further loads and selections of
-- currencies, each with another default session, a page reads the user of the first load and the
-- currency selected last, or the first load's if none was selected.
pub get_session-visits :
    (first later : Session) (vs : List Visit)
    → (get_session later true (visits (load first ∷ vs) none)).0
      ≡ record { user_id = first.user_id; currency_code = selected first.currency_code vs }
unfolding visits
get_session-visits first later vs =
    ap (λ storage. (get_session later true storage).0) (kept_session vs first)
