-- ===== src/Wire/Ad/RoundTrip.antt =====
-- What `decode` makes of the bytes of `encode`, for the messages of the parent module.
use opentelemetry_demo_mb3r.Prelude.{◌^◌, ◌<◌, ◌≡◌, refl, some, [], All, length, arith}
use opentelemetry_demo_mb3r.Proto.{Ad, AdRequest, AdResponse}
use opentelemetry_demo_mb3r.Wire.{Wire}
use opentelemetry_demo_mb3r.Wire.Reading.{
  Takes, Takes-then, Takes-string, Takes-strings, decode_all-Takes,
}
use opentelemetry_demo_mb3r.Wire.Nesting.{Takes-messages}
use opentelemetry_demo_mb3r.Wire.Ad.{
  base_ad_request, encode_ad_request, read_ad_request, decode_ad_request, base_ad, encode_ad,
  read_ad, decode_ad, base_ad_response, encode_ad_response, read_ad_response, decode_ad_response,
}

module _ (w : Wire) where
  pub Takes-ad_request :
      (m : AdRequest) → Takes w (read_ad_request w) (encode_ad_request w m) base_ad_request m
  unfolding encode_ad_request read_ad_request
  Takes-ad_request m =
      Takes-strings w (read_ad_request w) 10 (λ v. record { context_keys = v }) [] m.context_keys
        (omega arith) (λ before bs. refl)

  pub decode_ad_request-encode_ad_request :
      (m : AdRequest) → decode_ad_request w (encode_ad_request w m) ≡ some m
  unfolding decode_ad_request
  decode_ad_request-encode_ad_request m =
      decode_all-Takes w (read_ad_request w) (Takes-ad_request m)

  pub Takes-ad : (m : Ad) → Takes w (read_ad w) (encode_ad w m) base_ad m
  unfolding encode_ad read_ad
  Takes-ad m =
      Takes-then w (read_ad w)
        (Takes-string w (read_ad w) 10 (λ v. record { redirect_url = v; text = "" }) m.redirect_url
          (omega arith) (λ bs. refl))
        (Takes-string w (read_ad w) 18 (λ v. record { redirect_url = m.redirect_url; text = v })
          m.text (omega arith) (λ bs. refl))

  pub decode_ad-encode_ad : (m : Ad) → decode_ad w (encode_ad w m) ≡ some m
  unfolding decode_ad
  decode_ad-encode_ad m = decode_all-Takes w (read_ad w) (Takes-ad m)

  abbrev pub FitsAdResponse : AdResponse → Type 0
  FitsAdResponse m = All (λ x. (length (encode_ad w x) < 2 ^ 32)) m.ads

  pub Takes-ad_response :
      (m : AdResponse)
      → FitsAdResponse m
      → Takes w (read_ad_response w) (encode_ad_response w m) base_ad_response m
  unfolding encode_ad_response read_ad_response
  Takes-ad_response m h =
      Takes-messages w (read_ad_response w) (read_ad w) (encode_ad w) base_ad 10
        (λ v. record { ads = v }) [] m.ads (omega arith) (λ x p. (Takes-ad x, p)) h
        (λ before bs. refl)

  pub decode_ad_response-encode_ad_response :
      (m : AdResponse) → FitsAdResponse m → decode_ad_response w (encode_ad_response w m) ≡ some m
  unfolding decode_ad_response
  decode_ad_response-encode_ad_response m h =
      decode_all-Takes w (read_ad_response w) (Takes-ad_response m h)
