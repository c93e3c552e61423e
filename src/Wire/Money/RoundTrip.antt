-- ===== src/Wire/Money/RoundTrip.antt =====
-- What `decode` makes of the bytes of `encode`, for the messages of the parent module.
use opentelemetry_demo_mb3r.Prelude.{◌^◌, ◌<◌, pos, ◌≡◌, refl, some, [], length, arith}
use opentelemetry_demo_mb3r.Proto.{CurrencyConversionRequest, GetSupportedCurrenciesResponse, Money}
use opentelemetry_demo_mb3r.Wire.{Wire, IsInt32, IsSafe}
use opentelemetry_demo_mb3r.Wire.Reading.{
  Takes, Takes-then, Takes-string, Takes-int32, Takes-int64, Takes-strings, decode_all-Takes,
}
use opentelemetry_demo_mb3r.Wire.Nesting.{OnSome, Takes-message}
use opentelemetry_demo_mb3r.Wire.Money.{
  base_money, encode_money, read_money, decode_money, base_get_supported_currencies_response,
  encode_get_supported_currencies_response, read_get_supported_currencies_response,
  decode_get_supported_currencies_response, base_currency_conversion_request,
  encode_currency_conversion_request, read_currency_conversion_request,
  decode_currency_conversion_request,
}

module _ (w : Wire) where
  abbrev pub FitsMoney : Money → Type 0
  FitsMoney m = (IsSafe m.units) × (IsInt32 m.nanos)

  pub Takes-money :
      (m : Money) → FitsMoney m → Takes w (read_money w) (encode_money w m) base_money m
  unfolding encode_money read_money
  Takes-money m h =
      Takes-then w (read_money w)
        (Takes-then w (read_money w)
          (Takes-string w (read_money w) 10
            (λ v. record { currency_code = v; units = pos 0; nanos = pos 0 }) m.currency_code
            (omega arith) (λ bs. refl))
          (Takes-int64 w (read_money w) 16
            (λ v. record { currency_code = m.currency_code; units = v; nanos = pos 0 }) m.units
            (omega arith) h.0 (λ bs. refl)))
        (Takes-int32 w (read_money w) 24
          (λ v. record { currency_code = m.currency_code; units = m.units; nanos = v }) m.nanos
          (omega arith) h.1 (λ bs. refl))

  pub decode_money-encode_money :
      (m : Money) → FitsMoney m → decode_money w (encode_money w m) ≡ some m
  unfolding decode_money
  decode_money-encode_money m h = decode_all-Takes w (read_money w) (Takes-money m h)

  pub Takes-get_supported_currencies_response :
      (m : GetSupportedCurrenciesResponse)
      → Takes w
          (read_get_supported_currencies_response w)
          (encode_get_supported_currencies_response w m)
          base_get_supported_currencies_response
          m
  unfolding encode_get_supported_currencies_response read_get_supported_currencies_response
  Takes-get_supported_currencies_response m =
      Takes-strings w (read_get_supported_currencies_response w) 10
        (λ v. record { currency_codes = v }) [] m.currency_codes (omega arith) (λ before bs. refl)

  pub decode_get_supported_currencies_response-encode_get_supported_currencies_response :
      (m : GetSupportedCurrenciesResponse)
      → decode_get_supported_currencies_response w (encode_get_supported_currencies_response w m)
        ≡ some m
  unfolding decode_get_supported_currencies_response
  decode_get_supported_currencies_response-encode_get_supported_currencies_response m =
      decode_all-Takes w (read_get_supported_currencies_response w)
        (Takes-get_supported_currencies_response m)

  abbrev pub FitsCurrencyConversionRequest : CurrencyConversionRequest → Type 0
  FitsCurrencyConversionRequest m =
      OnSome (λ x. FitsMoney x × (length (encode_money w x) < 2 ^ 32)) m.from

  pub Takes-currency_conversion_request :
      (m : CurrencyConversionRequest)
      → FitsCurrencyConversionRequest m
      → Takes w
          (read_currency_conversion_request w)
          (encode_currency_conversion_request w m)
          base_currency_conversion_request
          m
  unfolding encode_currency_conversion_request read_currency_conversion_request
  Takes-currency_conversion_request m h =
      Takes-then w (read_currency_conversion_request w)
        (Takes-message w (read_currency_conversion_request w) (read_money w) (encode_money w)
          base_money 10 (λ v. record { from = v; to_code = "" }) m.from (omega arith)
          (λ x p. (Takes-money x p.0, p.1)) h (λ bs. refl))
        (Takes-string w (read_currency_conversion_request w) 18
          (λ v. record { from = m.from; to_code = v }) m.to_code (omega arith) (λ bs. refl))

  pub decode_currency_conversion_request-encode_currency_conversion_request :
      (m : CurrencyConversionRequest)
      → FitsCurrencyConversionRequest m
      → decode_currency_conversion_request w (encode_currency_conversion_request w m) ≡ some m
  unfolding decode_currency_conversion_request
  decode_currency_conversion_request-encode_currency_conversion_request m h =
      decode_all-Takes w (read_currency_conversion_request w)
        (Takes-currency_conversion_request m h)
