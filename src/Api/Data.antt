-- ===== src/Api/Data.antt =====
-- src/frontend/pages/api/data.ts: the ads for a list of context keys.
use Prim.Native.Char.{code}
use Prim.Native.Nat.{compare, Ordering}
use Prim.Native.String
use opentelemetry_demo_mb3r.Prelude.{ℕ, String, List, [], ◌∷◌, Bool, true, false, if◌then◌else◌}
use opentelemetry_demo_mb3r.Promise.{Promise, resolved, ◌>>=◌}
use opentelemetry_demo_mb3r.Http.{
  Method, get, QueryValue, undefined, text, texts, Request, ads, empty, Response, fresh, status,
  send,
}
use opentelemetry_demo_mb3r.Gateways

abbrev pub is_comma : ℕ → Bool
is_comma c = elim (compare c b',') [ Ordering.eq ↦ true | _ ↦ false ]

-- A character in front of the first part of a split text.
abbrev pub onto_first : String → List String → List String
onto_first c [] = c ∷ []
onto_first c (part ∷ parts) = String.◌++◌ c part ∷ parts

-- `s.split(',')`.
unfoldable pub split_commas : String → List String
split_commas String.[] = "" ∷ []
split_commas (String.◌∷◌ c s) =
    let parts = split_commas s in
    if is_comma (code c) then "" ∷ parts else onto_first (String.◌∷◌ c "") parts

-- `{ contextKeys = [] }`, and `Array.isArray(contextKeys) ? contextKeys : contextKeys.split(',')`.
unfoldable pub context_key_list : QueryValue → List String
unfolding split_commas
context_key_list undefined = []
context_key_list (text s) = split_commas s
context_key_list (texts keys) = keys

unfoldable pub data_switch : Method → Request (Unit {0}) → Promise Response
unfolding Gateways.Ad.list_ads context_key_list
data_switch get req = Gateways.Ad.list_ads (context_key_list req.query.context_keys) >>= λ ad_list.
    resolved (send (ads ad_list) (status 200 fresh))
data_switch _ req = resolved (send empty (status 405 fresh))

unfoldable pub data_handler : Request (Unit {0}) → Promise Response
unfolding data_switch
data_handler req = data_switch req.method req
