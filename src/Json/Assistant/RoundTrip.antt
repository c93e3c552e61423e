-- ===== src/Json/Assistant/RoundTrip.antt =====
-- What `toJSON` writes of `AskProductAIAssistantRequest`, `AskProductAIAssistantResponse`,
-- `fromJSON` reads back.
use opentelemetry_demo_mb3r.Prelude.{◌≡◌, refl, ap, ◌∙◌, some}
use opentelemetry_demo_mb3r.Proto.{AskProductAiAssistantRequest, AskProductAiAssistantResponse}
use opentelemetry_demo_mb3r.Json.{Conversions}
use opentelemetry_demo_mb3r.Json.Fields.{get-fields_of, as_text-text_value}
use opentelemetry_demo_mb3r.Json.Assistant.{
  from_json_ask_product_ai_assistant_request, to_json_ask_product_ai_assistant_request,
  read_json_ask_product_ai_assistant_request, ask_product_ai_assistant_request_fields,
  from_json_ask_product_ai_assistant_response, to_json_ask_product_ai_assistant_response,
  read_json_ask_product_ai_assistant_response, ask_product_ai_assistant_response_fields,
}

pub from_json_ask_product_ai_assistant_request-to_json_ask_product_ai_assistant_request :
    (c : Conversions) (m : AskProductAiAssistantRequest)
    → from_json_ask_product_ai_assistant_request c (to_json_ask_product_ai_assistant_request m)
      ≡ some m
unfolding from_json_ask_product_ai_assistant_request to_json_ask_product_ai_assistant_request
from_json_ask_product_ai_assistant_request-to_json_ask_product_ai_assistant_request c m =
    ap (read_json_ask_product_ai_assistant_request c)
      (get-fields_of (ask_product_ai_assistant_request_fields m))
    ∙ rw (as_text-text_value c m.product_id, as_text-text_value c m.question) refl

pub from_json_ask_product_ai_assistant_response-to_json_ask_product_ai_assistant_response :
    (c : Conversions) (m : AskProductAiAssistantResponse)
    → from_json_ask_product_ai_assistant_response c (to_json_ask_product_ai_assistant_response m)
      ≡ some m
unfolding from_json_ask_product_ai_assistant_response to_json_ask_product_ai_assistant_response
from_json_ask_product_ai_assistant_response-to_json_ask_product_ai_assistant_response c m =
    ap (read_json_ask_product_ai_assistant_response c)
      (get-fields_of (ask_product_ai_assistant_response_fields m))
    ∙ rw (as_text-text_value c m.response) refl
