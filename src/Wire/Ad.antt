-- ===== src/Wire/Ad.antt =====
-- `encode` and `decode` of `AdRequest`, `Ad`, `AdResponse`
-- in src/frontend/protos/demo.ts.
pub mod RoundTrip
pub mod Fuel
use opentelemetry_demo_mb3r.Prelude.{ℕ, Option, [], ◌∷◌, ◌++◌, eqb, if◌then◌else◌}
use opentelemetry_demo_mb3r.Proto.{Ad, AdRequest, AdResponse}
use opentelemetry_demo_mb3r.Wire.{
  Bytes, Wire, Step, other, into, decode_all, decode_nested, put_string, put_strings, put_messages,
}

abbrev pub base_ad_request : AdRequest
base_ad_request = record { context_keys = [] }

abbrev pub base_ad : Ad
base_ad = record { redirect_url = ""; text = "" }

abbrev pub base_ad_response : AdResponse
base_ad_response = record { ads = [] }

module _ (w : Wire) where
  unfoldable pub encode_ad_request : AdRequest → Bytes
  encode_ad_request m = put_strings w 10 m.context_keys

  unfoldable pub read_ad_request : ℕ → AdRequest → Bytes → Step (AdRequest)
  read_ad_request tag m bs =
      if eqb tag 10
      then into (λ v. record m { context_keys = m.context_keys ++ v ∷ [] }) (w.read_string bs)
      else other

  unfoldable pub decode_ad_request : Bytes → Option (AdRequest)
  unfolding decode_all read_ad_request
  decode_ad_request bs = decode_all w read_ad_request base_ad_request bs

  unfoldable pub encode_ad : Ad → Bytes
  encode_ad m = put_string w 10 m.redirect_url ++ put_string w 18 m.text

  unfoldable pub read_ad : ℕ → Ad → Bytes → Step (Ad)
  read_ad tag m bs =
      if eqb tag 10
      then into (λ v. record m { redirect_url = v }) (w.read_string bs)
      else if eqb tag 18
      then into (λ v. record m { text = v }) (w.read_string bs)
      else other

  unfoldable pub decode_ad : Bytes → Option (Ad)
  unfolding decode_all read_ad
  decode_ad bs = decode_all w read_ad base_ad bs

  unfoldable pub encode_ad_response : AdResponse → Bytes
  unfolding encode_ad
  encode_ad_response m = put_messages w encode_ad 10 m.ads

  unfoldable pub read_ad_response : ℕ → AdResponse → Bytes → Step (AdResponse)
  unfolding decode_nested read_ad
  read_ad_response tag m bs =
      if eqb tag 10
      then into (λ v. record m { ads = m.ads ++ v ∷ [] }) (decode_nested w read_ad base_ad bs)
      else other

  unfoldable pub decode_ad_response : Bytes → Option (AdResponse)
  unfolding decode_all read_ad_response
  decode_ad_response bs = decode_all w read_ad_response base_ad_response bs
