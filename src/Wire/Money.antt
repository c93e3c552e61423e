-- ===== src/Wire/Money.antt =====
-- `encode` and `decode` of `Money`, `GetSupportedCurrenciesResponse`, `CurrencyConversionRequest`
-- in src/frontend/protos/demo.ts.
pub mod RoundTrip
pub mod Fuel
use opentelemetry_demo_mb3r.Prelude.{ℕ, pos, Option, none, some, [], ◌∷◌, ◌++◌, eqb, if◌then◌else◌}
use opentelemetry_demo_mb3r.Proto.{CurrencyConversionRequest, GetSupportedCurrenciesResponse, Money}
use opentelemetry_demo_mb3r.Wire.{
  Bytes, Wire, Step, other, into, to_number, decode_all, decode_nested, put_string, put_int32,
  put_int64, put_message, put_strings,
}

abbrev pub base_money : Money
base_money = record { currency_code = ""; units = pos 0; nanos = pos 0 }

abbrev pub base_get_supported_currencies_response : GetSupportedCurrenciesResponse
base_get_supported_currencies_response = record { currency_codes = [] }

abbrev pub base_currency_conversion_request : CurrencyConversionRequest
base_currency_conversion_request = record { from = none; to_code = "" }

module _ (w : Wire) where
  unfoldable pub encode_money : Money → Bytes
  encode_money m =
      put_string w 10 m.currency_code ++ put_int64 w 16 m.units ++ put_int32 w 24 m.nanos

  unfoldable pub read_money : ℕ → Money → Bytes → Step (Money)
  read_money tag m bs =
      if eqb tag 10
      then into (λ v. record m { currency_code = v }) (w.read_string bs)
      else if eqb tag 16
      then into (λ v. record m { units = v }) (to_number (w.read_int64 bs))
      else if eqb tag 24
      then into (λ v. record m { nanos = v }) (w.read_int32 bs)
      else other

  unfoldable pub decode_money : Bytes → Option (Money)
  unfolding decode_all read_money
  decode_money bs = decode_all w read_money base_money bs

  unfoldable pub encode_get_supported_currencies_response : GetSupportedCurrenciesResponse → Bytes
  encode_get_supported_currencies_response m = put_strings w 10 m.currency_codes

  unfoldable pub read_get_supported_currencies_response :
      ℕ → GetSupportedCurrenciesResponse → Bytes → Step (GetSupportedCurrenciesResponse)
  read_get_supported_currencies_response tag m bs =
      if eqb tag 10
      then into (λ v. record m { currency_codes = m.currency_codes ++ v ∷ [] }) (w.read_string bs)
      else other

  unfoldable pub decode_get_supported_currencies_response :
      Bytes → Option (GetSupportedCurrenciesResponse)
  unfolding decode_all read_get_supported_currencies_response
  decode_get_supported_currencies_response bs =
      decode_all w read_get_supported_currencies_response base_get_supported_currencies_response bs

  unfoldable pub encode_currency_conversion_request : CurrencyConversionRequest → Bytes
  unfolding encode_money
  encode_currency_conversion_request m =
      put_message w encode_money 10 m.from ++ put_string w 18 m.to_code

  unfoldable pub read_currency_conversion_request :
      ℕ → CurrencyConversionRequest → Bytes → Step (CurrencyConversionRequest)
  unfolding decode_nested read_money
  read_currency_conversion_request tag m bs =
      if eqb tag 10
      then into (λ v. record m { from = some v }) (decode_nested w read_money base_money bs)
      else if eqb tag 18
      then into (λ v. record m { to_code = v }) (w.read_string bs)
      else other

  unfoldable pub decode_currency_conversion_request : Bytes → Option (CurrencyConversionRequest)
  unfolding decode_all read_currency_conversion_request
  decode_currency_conversion_request bs =
      decode_all w read_currency_conversion_request base_currency_conversion_request bs
