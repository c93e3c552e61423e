-- ===== src/Json/Assistant.antt =====
-- `toJSON` and `fromJSON` of `AskProductAIAssistantRequest`, `AskProductAIAssistantResponse` in
-- src/frontend/protos/demo.ts.
pub mod RoundTrip
use opentelemetry_demo_mb3r.Prelude.{String, Option, some, List, [], ◌∷◌}
use opentelemetry_demo_mb3r.Proto.{AskProductAiAssistantRequest, AskProductAiAssistantResponse}
use opentelemetry_demo_mb3r.Json.{
  Json, object, Conversions, first_set, with_fields, as_text, text_value, fields_of,
}

abbrev pub ask_product_ai_assistant_request_fields :
    AskProductAiAssistantRequest → List (String × Option Json)
ask_product_ai_assistant_request_fields m =
    ("productId", text_value m.product_id) ∷ ("question", text_value m.question) ∷ []

unfoldable pub to_json_ask_product_ai_assistant_request : AskProductAiAssistantRequest → Json
to_json_ask_product_ai_assistant_request m =
    object (fields_of (ask_product_ai_assistant_request_fields m))

abbrev pub ask_product_ai_assistant_response_fields :
    AskProductAiAssistantResponse → List (String × Option Json)
ask_product_ai_assistant_response_fields m = ("response", text_value m.response) ∷ []

unfoldable pub to_json_ask_product_ai_assistant_response : AskProductAiAssistantResponse → Json
to_json_ask_product_ai_assistant_response m =
    object (fields_of (ask_product_ai_assistant_response_fields m))

module _ (c : Conversions) where
  abbrev pub read_json_ask_product_ai_assistant_request :
      (String → Option Json) → Option AskProductAiAssistantRequest
  read_json_ask_product_ai_assistant_request look = some record {
    product_id = as_text c (first_set ("productId" ∷ "product_id" ∷ []) look);
    question = as_text c (first_set ("question" ∷ []) look);
  }

  unfoldable pub from_json_ask_product_ai_assistant_request :
      Json → Option (AskProductAiAssistantRequest)
  from_json_ask_product_ai_assistant_request =
      with_fields read_json_ask_product_ai_assistant_request

  abbrev pub read_json_ask_product_ai_assistant_response :
      (String → Option Json) → Option AskProductAiAssistantResponse
  read_json_ask_product_ai_assistant_response look =
      some record { response = as_text c (first_set ("response" ∷ []) look) }

  unfoldable pub from_json_ask_product_ai_assistant_response :
      Json → Option (AskProductAiAssistantResponse)
  from_json_ask_product_ai_assistant_response =
      with_fields read_json_ask_product_ai_assistant_response
