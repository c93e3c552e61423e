-- ===== src/Json/Ad/RoundTrip.antt =====
-- What `toJSON` writes of `AdRequest`, `Ad`, `AdResponse`, `fromJSON` reads back.
use opentelemetry_demo_mb3r.Prelude.{◌≡◌, refl, ap, ◌∙◌, some}
use opentelemetry_demo_mb3r.Proto.{Ad, AdRequest, AdResponse}
use opentelemetry_demo_mb3r.Json.{Conversions}
use opentelemetry_demo_mb3r.Json.Fields.{
  get-fields_of, as_text-text_value, as_texts-texts_value, as_messages-messages_value,
}
use opentelemetry_demo_mb3r.Json.Ad.{
  from_json_ad_request, to_json_ad_request, read_json_ad_request, ad_request_fields, from_json_ad,
  to_json_ad, read_json_ad, ad_fields, from_json_ad_response, to_json_ad_response,
  read_json_ad_response, ad_response_fields,
}

pub from_json_ad_request-to_json_ad_request :
    (c : Conversions) (m : AdRequest) → from_json_ad_request c (to_json_ad_request m) ≡ some m
unfolding from_json_ad_request to_json_ad_request
from_json_ad_request-to_json_ad_request c m =
    ap (read_json_ad_request c) (get-fields_of (ad_request_fields m))
    ∙ rw (as_texts-texts_value c m.context_keys) refl

pub from_json_ad-to_json_ad : (c : Conversions) (m : Ad) → from_json_ad c (to_json_ad m) ≡ some m
unfolding from_json_ad to_json_ad
from_json_ad-to_json_ad c m =
    ap (read_json_ad c) (get-fields_of (ad_fields m))
    ∙ rw (as_text-text_value c m.redirect_url, as_text-text_value c m.text) refl

pub from_json_ad_response-to_json_ad_response :
    (c : Conversions) (m : AdResponse) → from_json_ad_response c (to_json_ad_response m) ≡ some m
unfolding from_json_ad_response to_json_ad_response to_json_ad
from_json_ad_response-to_json_ad_response c m =
    ap (read_json_ad_response c) (get-fields_of (ad_response_fields m))
    ∙ rw (as_messages-messages_value (from_json_ad c) to_json_ad (from_json_ad-to_json_ad c) m.ads)
        refl
