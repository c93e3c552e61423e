-- ===== src/Json/Ad.antt =====
-- `toJSON` and `fromJSON` of `AdRequest`, `Ad`, `AdResponse` in src/frontend/protos/demo.ts.
pub mod RoundTrip
use opentelemetry_demo_mb3r.Prelude.{String, Option, some, List, [], ◌∷◌}
use opentelemetry_demo_mb3r.Proto.{Ad, AdRequest, AdResponse}
use opentelemetry_demo_mb3r.Json.{
  Json, object, Conversions, get, first_set, first_array, with_fields, ◌>>=◌, as_text, as_texts,
  as_messages, text_value, texts_value, messages_value, fields_of,
}

abbrev pub ad_request_fields : AdRequest → List (String × Option Json)
ad_request_fields m = ("contextKeys", texts_value m.context_keys) ∷ []

unfoldable pub to_json_ad_request : AdRequest → Json
to_json_ad_request m = object (fields_of (ad_request_fields m))

abbrev pub ad_fields : Ad → List (String × Option Json)
ad_fields m = ("redirectUrl", text_value m.redirect_url) ∷ ("text", text_value m.text) ∷ []

unfoldable pub to_json_ad : Ad → Json
to_json_ad m = object (fields_of (ad_fields m))

abbrev pub ad_response_fields : AdResponse → List (String × Option Json)
ad_response_fields m = ("ads", messages_value to_json_ad m.ads) ∷ []

unfoldable pub to_json_ad_response : AdResponse → Json
to_json_ad_response m = object (fields_of (ad_response_fields m))

module _ (c : Conversions) where
  abbrev pub read_json_ad_request : (String → Option Json) → Option AdRequest
  read_json_ad_request look =
      some record {
        context_keys = as_texts c (first_array ("contextKeys" ∷ "context_keys" ∷ []) look);
      }

  unfoldable pub from_json_ad_request : Json → Option (AdRequest)
  from_json_ad_request j = read_json_ad_request (get j)

  abbrev pub read_json_ad : (String → Option Json) → Option Ad
  read_json_ad look = some record {
    redirect_url = as_text c (first_set ("redirectUrl" ∷ "redirect_url" ∷ []) look);
    text = as_text c (first_set ("text" ∷ []) look);
  }

  unfoldable pub from_json_ad : Json → Option (Ad)
  from_json_ad = with_fields read_json_ad

  abbrev pub read_json_ad_response : (String → Option Json) → Option AdResponse
  read_json_ad_response look =
      as_messages from_json_ad (first_array ("ads" ∷ []) look) >>= λ ads. some record { ads = ads }

  unfoldable pub from_json_ad_response : Json → Option (AdResponse)
  from_json_ad_response j = read_json_ad_response (get j)
