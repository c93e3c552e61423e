-- ===== src/Json/Money.antt =====
-- `toJSON` and `fromJSON` of `Money`, `GetSupportedCurrenciesResponse`,
-- `CurrencyConversionRequest` in src/frontend/protos/demo.ts.
pub mod RoundTrip
use opentelemetry_demo_mb3r.Prelude.{String, Option, some, List, [], ◌∷◌}
use opentelemetry_demo_mb3r.Proto.{CurrencyConversionRequest, GetSupportedCurrenciesResponse, Money}
use opentelemetry_demo_mb3r.Json.{
  Json, object, Conversions, get, first_set, first_array, with_fields, ◌>>=◌, as_text, as_number,
  as_texts, as_message, text_value, number_value, message_value, texts_value, fields_of,
}

abbrev pub money_fields : Money → List (String × Option Json)
money_fields m =
    ("currencyCode", text_value m.currency_code)
    ∷ ("units", number_value m.units)
    ∷ ("nanos", number_value m.nanos)
    ∷ []

unfoldable pub to_json_money : Money → Json
to_json_money m = object (fields_of (money_fields m))

abbrev pub get_supported_currencies_response_fields :
    GetSupportedCurrenciesResponse → List (String × Option Json)
get_supported_currencies_response_fields m = ("currencyCodes", texts_value m.currency_codes) ∷ []

unfoldable pub to_json_get_supported_currencies_response : GetSupportedCurrenciesResponse → Json
to_json_get_supported_currencies_response m =
    object (fields_of (get_supported_currencies_response_fields m))

abbrev pub currency_conversion_request_fields :
    CurrencyConversionRequest → List (String × Option Json)
currency_conversion_request_fields m =
    ("from", message_value to_json_money m.from) ∷ ("toCode", text_value m.to_code) ∷ []

unfoldable pub to_json_currency_conversion_request : CurrencyConversionRequest → Json
to_json_currency_conversion_request m = object (fields_of (currency_conversion_request_fields m))

module _ (c : Conversions) where
  abbrev pub read_json_money : (String → Option Json) → Option Money
  read_json_money look = as_number c (first_set ("units" ∷ []) look) >>= λ units.
      as_number c (first_set ("nanos" ∷ []) look) >>= λ nanos. some record {
        currency_code = as_text c (first_set ("currencyCode" ∷ "currency_code" ∷ []) look);
        units = units;
        nanos = nanos;
      }

  unfoldable pub from_json_money : Json → Option (Money)
  from_json_money = with_fields read_json_money

  abbrev pub read_json_get_supported_currencies_response :
      (String → Option Json) → Option GetSupportedCurrenciesResponse
  read_json_get_supported_currencies_response look = some record {
    currency_codes = as_texts c (first_array ("currencyCodes" ∷ "currency_codes" ∷ []) look);
  }

  unfoldable pub from_json_get_supported_currencies_response :
      Json → Option (GetSupportedCurrenciesResponse)
  from_json_get_supported_currencies_response j =
      read_json_get_supported_currencies_response (get j)

  abbrev pub read_json_currency_conversion_request :
      (String → Option Json) → Option CurrencyConversionRequest
  read_json_currency_conversion_request look =
      as_message from_json_money (first_set ("from" ∷ []) look) >>= λ from.
      some record { from = from; to_code = as_text c (first_set ("toCode" ∷ "to_code" ∷ []) look) }

  unfoldable pub from_json_currency_conversion_request : Json → Option (CurrencyConversionRequest)
  from_json_currency_conversion_request = with_fields read_json_currency_conversion_request
