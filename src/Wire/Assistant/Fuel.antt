-- ===== src/Wire/Assistant/Fuel.antt =====
-- The bytes that the cases of the parent module's `decode` leave.
use opentelemetry_demo_mb3r.Prelude.{ℕ, eqb}
use opentelemetry_demo_mb3r.Wire.{Wire}
use opentelemetry_demo_mb3r.Wire.Fuel.{Shrinks, Shrinks-if, Shrinks-into, Shrinks-other}
use opentelemetry_demo_mb3r.Wire.Assistant.{
  read_ask_product_ai_assistant_request, read_ask_product_ai_assistant_response,
}

module _ (w : Wire) where
  pub read_ask_product_ai_assistant_request-Shrinks :
      (tag : ℕ) → Shrinks (read_ask_product_ai_assistant_request w tag)
  unfolding read_ask_product_ai_assistant_request
  read_ask_product_ai_assistant_request-Shrinks tag =
      Shrinks-if (eqb tag 10) _ _
        (Shrinks-into w.read_string (λ m v. record m { product_id = v }) w.string_takes)
        (Shrinks-if (eqb tag 18) _ _
          (Shrinks-into w.read_string (λ m v. record m { question = v }) w.string_takes)
          (Shrinks-other))

  pub read_ask_product_ai_assistant_response-Shrinks :
      (tag : ℕ) → Shrinks (read_ask_product_ai_assistant_response w tag)
  unfolding read_ask_product_ai_assistant_response
  read_ask_product_ai_assistant_response-Shrinks tag =
      Shrinks-if (eqb tag 10) _ _
        (Shrinks-into w.read_string (λ m v. record m { response = v }) w.string_takes)
        (Shrinks-other)
