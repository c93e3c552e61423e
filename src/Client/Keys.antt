-- ===== src/Client/Keys.antt =====
-- The lists that src/frontend/gateways/Api.gateway.ts sends, from the client to the services.
use Prim.Native.Char.{Char, code}
use Prim.Native.String
use package.text.Mathlib.TextLemmas.{append-nil}
use opentelemetry_demo_mb3r.Prelude.{
  String, ◌≡◌, refl, ap, sym, ◌∙◌, false, some, List, [], ◌∷◌, All,
}
use opentelemetry_demo_mb3r.Proto.{Ad}
use opentelemetry_demo_mb3r.Calls.{Call, response, Services}
use opentelemetry_demo_mb3r.Promise.{
  waiting, resolved, settle_callback, ◌>>=◌, fulfilled, run, first_call, run-waiting, run-resolved,
}
use opentelemetry_demo_mb3r.Http.{get, text, ads, send, status, fresh}
use opentelemetry_demo_mb3r.Api.Data.{is_comma, onto_first, split_commas}
use opentelemetry_demo_mb3r.Api.Routes.{handle}
use opentelemetry_demo_mb3r.Api.Recommendations.Shown.{
  IsOneCharacter, concat_texts, recommendations_of_text,
}
use opentelemetry_demo_mb3r.Client.{ApiCall, sent, in_currency, join_commas, request_of}

abbrev pub HasNoComma : String → Type 0
HasNoComma String.[] = Unit
HasNoComma (String.◌∷◌ c s) = (is_comma (code c) ≡ false) × HasNoComma s

onto_first_twice :
    (c : Char) (key : String) (parts : List String)
    → onto_first (String.◌∷◌ c "") (onto_first key parts) ≡ onto_first (String.◌∷◌ c key) parts
onto_first_twice c key [] =
    ap (λ t. t ∷ []) (String.append.cons c "" key ∙ ap (String.◌∷◌ c) (String.append.nil key))
onto_first_twice c key (part ∷ parts) =
    ap (λ t. t ∷ parts)
      (String.append.cons c "" (String.◌++◌ key part)
        ∙ ap (String.◌∷◌ c) (String.append.nil (String.◌++◌ key part))
        ∙ sym (String.append.cons c key part))

-- A key without a comma in front of a text stays in its first part.
split_commas-append :
    (key : String) (part : String) (parts : List String) (s : String)
    → HasNoComma key
    → split_commas s ≡ part ∷ parts
    → split_commas (String.◌++◌ key s) ≡ String.◌++◌ key part ∷ parts
unfolding split_commas
split_commas-append String.[] part parts s h e =
    ap split_commas (String.append.nil s) ∙ e ∙ ap (λ t. t ∷ parts) (sym (String.append.nil part))
split_commas-append (String.◌∷◌ c key) part parts s h e =
    ap split_commas (String.append.cons c key s)
    ∙ rw h.0 (
        ap (onto_first (String.◌∷◌ c "")) (split_commas-append key part parts s h.1 e)
        ∙ onto_first_twice c key (part ∷ parts))

split_commas-comma : (s : String) → split_commas (String.◌++◌ "," s) ≡ "" ∷ split_commas s
unfolding split_commas
split_commas-comma s =
    ap split_commas (String.append.cons "," "" s ∙ ap (String.◌∷◌ ",") (String.append.nil s))

split_commas-join_commas :
    (key : String) (keys : List String)
    → All HasNoComma (key ∷ keys)
    → split_commas (join_commas (key ∷ keys)) ≡ key ∷ keys
unfolding join_commas split_commas
split_commas-join_commas key [] h =
    ap split_commas (sym (append-nil key))
    ∙ split_commas-append key "" [] "" h.0 refl
    ∙ ap (λ t. t ∷ []) (append-nil key)
split_commas-join_commas key (next ∷ keys) h =
    split_commas-append key "" (next ∷ keys) (String.◌++◌ "," (join_commas (next ∷ keys))) h.0 (
      split_commas-comma (join_commas (next ∷ keys))
      ∙ ap (λ t. "" ∷ t) (split_commas-join_commas next keys h.1))
    ∙ ap (λ t. t ∷ next ∷ keys) (append-nil key)

-- If the ad service answers for a list of context keys, which is not empty and none of which has a
-- comma, then the client's call for the ads of these keys answers 200 with its ads: every key
-- reaches the service as it was, in the order of the list.
pub run-list_ads :
    {S : Type 0} (services : Services S) (s s' : S) (user_id key : String) (keys : List String)
    (shown : List Ad)
    → All HasNoComma (key ∷ keys)
    → services (Call.get_ads (key ∷ keys)) s ≡ (response shown, s')
    → run services (handle (request_of user_id (ApiCall.list_ads (key ∷ keys)))) s
      ≡ (fulfilled (record { status_code = 200; body = some (ads shown) }), s')
unfolding handle request_of
run-list_ads services s s' user_id key keys shown plain answered =
    ap
      (λ ks.
        run services
          (waiting (Call.get_ads ks)
            (λ r. settle_callback r >>= λ found. resolved (send (ads found) (status 200 fresh))))
          s)
      (split_commas-join_commas key keys plain)
    ∙ run-waiting services (Call.get_ads (key ∷ keys)) _ s answered
    ∙ run-resolved services _ s'

-- Whatever products the client asks recommendations for: the recommendation service is asked, in the
-- first call, about identifiers of one character each, which one behind the other are the
-- identifiers of the products, joined by commas.
pub list_recommendations_asked :
    (user_id currency_code : String) (product_ids : List String)
    → (asked : List String) × (first_call
          (handle (request_of user_id (ApiCall.list_recommendations product_ids currency_code)))
        ≡ some (Call.list_recommendations user_id asked))
      × All IsOneCharacter asked
      × (concat_texts asked ≡ join_commas product_ids)
unfolding handle request_of
list_recommendations_asked user_id currency_code product_ids =
    recommendations_of_text
      (sent get
        (record (in_currency currency_code) {
          product_ids = text (join_commas product_ids);
          session_id = some user_id;
        })
        tt)
      (join_commas product_ids) refl refl
