-- ===== src/Wire/Assistant.antt =====
-- `encode` and `decode` of `AskProductAIAssistantRequest`, `AskProductAIAssistantResponse`
-- in src/frontend/protos/demo.ts.
pub mod RoundTrip
pub mod Fuel
use opentelemetry_demo_mb3r.Prelude.{ℕ, Option, ◌++◌, eqb, if◌then◌else◌}
use opentelemetry_demo_mb3r.Proto.{AskProductAiAssistantRequest, AskProductAiAssistantResponse}
use opentelemetry_demo_mb3r.Wire.{Bytes, Wire, Step, other, into, decode_all, put_string}

abbrev pub base_ask_product_ai_assistant_request : AskProductAiAssistantRequest
base_ask_product_ai_assistant_request = record { product_id = ""; question = "" }

abbrev pub base_ask_product_ai_assistant_response : AskProductAiAssistantResponse
base_ask_product_ai_assistant_response = record { response = "" }

module _ (w : Wire) where
  unfoldable pub encode_ask_product_ai_assistant_request : AskProductAiAssistantRequest → Bytes
  encode_ask_product_ai_assistant_request m =
      put_string w 10 m.product_id ++ put_string w 18 m.question

  unfoldable pub read_ask_product_ai_assistant_request :
      ℕ → AskProductAiAssistantRequest → Bytes → Step (AskProductAiAssistantRequest)
  read_ask_product_ai_assistant_request tag m bs =
      if eqb tag 10
      then into (λ v. record m { product_id = v }) (w.read_string bs)
      else if eqb tag 18
      then into (λ v. record m { question = v }) (w.read_string bs)
      else other

  unfoldable pub decode_ask_product_ai_assistant_request :
      Bytes → Option (AskProductAiAssistantRequest)
  unfolding decode_all read_ask_product_ai_assistant_request
  decode_ask_product_ai_assistant_request bs =
      decode_all w read_ask_product_ai_assistant_request base_ask_product_ai_assistant_request bs

  unfoldable pub encode_ask_product_ai_assistant_response : AskProductAiAssistantResponse → Bytes
  encode_ask_product_ai_assistant_response m = put_string w 10 m.response

  unfoldable pub read_ask_product_ai_assistant_response :
      ℕ → AskProductAiAssistantResponse → Bytes → Step (AskProductAiAssistantResponse)
  read_ask_product_ai_assistant_response tag m bs =
      if eqb tag 10 then into (λ v. record m { response = v }) (w.read_string bs) else other

  unfoldable pub decode_ask_product_ai_assistant_response :
      Bytes → Option (AskProductAiAssistantResponse)
  unfolding decode_all read_ask_product_ai_assistant_response
  decode_ask_product_ai_assistant_response bs =
      decode_all w read_ask_product_ai_assistant_response base_ask_product_ai_assistant_response bs
