-- ===== src/Json/Money/RoundTrip.antt =====
-- What `toJSON` writes of `Money`, `GetSupportedCurrenciesResponse`, `CurrencyConversionRequest`,
-- `fromJSON` reads back.
use opentelemetry_demo_mb3r.Prelude.{◌≡◌, refl, ap, ◌∙◌, some}
use opentelemetry_demo_mb3r.Proto.{CurrencyConversionRequest, GetSupportedCurrenciesResponse, Money}
use opentelemetry_demo_mb3r.Json.{Conversions}
use opentelemetry_demo_mb3r.Json.Fields.{
  get-fields_of, as_text-text_value, as_number-number_value, as_texts-texts_value,
  as_message-message_value,
}
use opentelemetry_demo_mb3r.Json.Money.{
  from_json_money, to_json_money, read_json_money, money_fields,
  from_json_get_supported_currencies_response, to_json_get_supported_currencies_response,
  read_json_get_supported_currencies_response, get_supported_currencies_response_fields,
  from_json_currency_conversion_request, to_json_currency_conversion_request,
  read_json_currency_conversion_request, currency_conversion_request_fields,
}

pub from_json_money-to_json_money :
    (c : Conversions) (m : Money) → from_json_money c (to_json_money m) ≡ some m
unfolding from_json_money to_json_money
from_json_money-to_json_money c m =
    ap (read_json_money c) (get-fields_of (money_fields m))
    ∙ rw
        (
          as_text-text_value c m.currency_code,
          as_number-number_value c m.units,
          as_number-number_value c m.nanos,
        )
        refl

pub from_json_get_supported_currencies_response-to_json_get_supported_currencies_response :
    (c : Conversions) (m : GetSupportedCurrenciesResponse)
    → from_json_get_supported_currencies_response c (to_json_get_supported_currencies_response m)
      ≡ some m
unfolding from_json_get_supported_currencies_response to_json_get_supported_currencies_response
from_json_get_supported_currencies_response-to_json_get_supported_currencies_response c m =
    ap (read_json_get_supported_currencies_response c)
      (get-fields_of (get_supported_currencies_response_fields m))
    ∙ rw (as_texts-texts_value c m.currency_codes) refl

pub from_json_currency_conversion_request-to_json_currency_conversion_request :
    (c : Conversions) (m : CurrencyConversionRequest)
    → from_json_currency_conversion_request c (to_json_currency_conversion_request m) ≡ some m
unfolding from_json_currency_conversion_request to_json_currency_conversion_request to_json_money
from_json_currency_conversion_request-to_json_currency_conversion_request c m =
    ap (read_json_currency_conversion_request c)
      (get-fields_of (currency_conversion_request_fields m))
    ∙ rw
        (
          as_message-message_value (from_json_money c) to_json_money
              (from_json_money-to_json_money c) (λ m. tt) m.from,
          as_text-text_value c m.to_code,
        )
        refl
