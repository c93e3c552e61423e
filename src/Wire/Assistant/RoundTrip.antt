-- ===== src/Wire/Assistant/RoundTrip.antt =====
-- What `decode` makes of the bytes of `encode`, for the messages of the parent module.
use opentelemetry_demo_mb3r.Prelude.{◌≡◌, refl, some, arith}
use opentelemetry_demo_mb3r.Proto.{AskProductAiAssistantRequest, AskProductAiAssistantResponse}
use opentelemetry_demo_mb3r.Wire.{Wire}
use opentelemetry_demo_mb3r.Wire.Reading.{Takes, Takes-then, Takes-string, decode_all-Takes}
use opentelemetry_demo_mb3r.Wire.Assistant.{
  base_ask_product_ai_assistant_request, encode_ask_product_ai_assistant_request,
  read_ask_product_ai_assistant_request, decode_ask_product_ai_assistant_request,
  base_ask_product_ai_assistant_response, encode_ask_product_ai_assistant_response,
  read_ask_product_ai_assistant_response, decode_ask_product_ai_assistant_response,
}

module _ (w : Wire) where
  pub Takes-ask_product_ai_assistant_request :
      (m : AskProductAiAssistantRequest)
      → Takes w
          (read_ask_product_ai_assistant_request w)
          (encode_ask_product_ai_assistant_request w m)
          base_ask_product_ai_assistant_request
          m
  unfolding encode_ask_product_ai_assistant_request read_ask_product_ai_assistant_request
  Takes-ask_product_ai_assistant_request m =
      Takes-then w (read_ask_product_ai_assistant_request w)
        (Takes-string w (read_ask_product_ai_assistant_request w) 10
          (λ v. record { product_id = v; question = "" }) m.product_id (omega arith) (λ bs. refl))
        (Takes-string w (read_ask_product_ai_assistant_request w) 18
          (λ v. record { product_id = m.product_id; question = v }) m.question (omega arith)
          (λ bs. refl))

  pub decode_ask_product_ai_assistant_request-encode_ask_product_ai_assistant_request :
      (m : AskProductAiAssistantRequest)
      → decode_ask_product_ai_assistant_request w (encode_ask_product_ai_assistant_request w m)
        ≡ some m
  unfolding decode_ask_product_ai_assistant_request
  decode_ask_product_ai_assistant_request-encode_ask_product_ai_assistant_request m =
      decode_all-Takes w (read_ask_product_ai_assistant_request w)
        (Takes-ask_product_ai_assistant_request m)

  pub Takes-ask_product_ai_assistant_response :
      (m : AskProductAiAssistantResponse)
      → Takes w
          (read_ask_product_ai_assistant_response w)
          (encode_ask_product_ai_assistant_response w m)
          base_ask_product_ai_assistant_response
          m
  unfolding encode_ask_product_ai_assistant_response read_ask_product_ai_assistant_response
  Takes-ask_product_ai_assistant_response m =
      Takes-string w (read_ask_product_ai_assistant_response w) 10 (λ v. record { response = v })
        m.response (omega arith) (λ bs. refl)

  pub decode_ask_product_ai_assistant_response-encode_ask_product_ai_assistant_response :
      (m : AskProductAiAssistantResponse)
      → decode_ask_product_ai_assistant_response w (encode_ask_product_ai_assistant_response w m)
        ≡ some m
  unfolding decode_ask_product_ai_assistant_response
  decode_ask_product_ai_assistant_response-encode_ask_product_ai_assistant_response m =
      decode_all-Takes w (read_ask_product_ai_assistant_response w)
        (Takes-ask_product_ai_assistant_response m)
