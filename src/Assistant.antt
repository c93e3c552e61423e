-- ===== src/Assistant.antt =====
-- src/frontend/providers/ProductAIAssistant.provider.tsx, and the section of
-- src/frontend/components/ProductReviews/ProductReviews.tsx that asks it: the question, the requests
-- that it makes, and the answers, which arrive in any order. `useMutation` of @tanstack/react-query is
-- the parameter `Mutations`, and what the server answers to a request the parameter `server`. A page
-- is rendered after each action, so that its handlers see the state that the action left.
pub mod Faithful
pub mod Latest
pub mod Arrivals
use Prim.Native.Char.{code}
use opentelemetry_demo_mb3r.Prelude.{
  ℕ, String, ◌≡◌, ◌≢◌, Bool, true, false, ◌&&◌, ◌||◌, not, Option, none, some, List, [], ◌∷◌,
  length, leb, eqb, if◌then◌else◌, ◌==◌,
}
use opentelemetry_demo_mb3r.Calls.{Failure}
use opentelemetry_demo_mb3r.Promise.{Outcome, fulfilled, failed}
use opentelemetry_demo_mb3r.Client.{ApiCall}

-- What `request` makes of the server's text: a string, an object with a text, or `undefined` for no
-- text at all.
pub data AiResponse : Type 0 where
  undefined : AiResponse
  plain with_text : String → AiResponse

pub data MutationResult : Type 0 where
  idle pending : MutationResult
  success : AiResponse → MutationResult
  failure : Failure → MutationResult

abbrev pub result_of : Outcome AiResponse → MutationResult
result_of (fulfilled a) = success a
result_of (failed e) = failure e

-- The observer of a `useMutation`: it shows the mutation that was started last, until `reset`.
-- Mutations are numbered in the order in which they start.
pub record Mutations : Type 1 where
  pub Observer : Type 0
  pub watched : Observer → Option ℕ
  pub result : Observer → MutationResult
  pub mutate : ℕ → Observer → Observer
  pub reset : Observer → Observer
  pub settle : ℕ → Outcome AiResponse → Observer → Observer
  pub watched_mutate : (n : ℕ) (o : Observer) → watched (mutate n o) ≡ some n
  pub result_mutate : (n : ℕ) (o : Observer) → result (mutate n o) ≡ pending
  pub watched_reset : (o : Observer) → watched (reset o) ≡ none
  pub result_reset : (o : Observer) → result (reset o) ≡ idle
  pub watched_settle :
      (n : ℕ) (outcome : Outcome AiResponse) (o : Observer)
      → watched (settle n outcome o) ≡ watched o
  pub result_settle :
      (n : ℕ) (outcome : Outcome AiResponse) (o : Observer)
      → watched o ≡ some n
      → result (settle n outcome o) ≡ result_of outcome
  pub result_settle_other :
      (n : ℕ) (outcome : Outcome AiResponse) (o : Observer)
      → watched o ≢ some n
      → result (settle n outcome o) ≡ result o

-- `String.prototype.trim` removes white space and line terminators.
abbrev is_space : ℕ → Bool
is_space c =
    leb 9 c && leb c 13
    || (eqb c 32
        || (eqb c 160
            || (eqb c 5760
                || (leb 8192 c && leb c 8202
                    || (eqb c 8232
                        || (eqb c 8233
                            || (eqb c 8239 || (eqb c 8287 || (eqb c 12288 || eqb c 65279)))))))))

abbrev trim_start : String → String
trim_start String.[] = ""
trim_start (String.◌∷◌ c s) =
    let rest = trim_start s in if is_space (code c) then rest else String.◌∷◌ c s

abbrev trim_end : String → String
trim_end String.[] = ""
trim_end (String.◌∷◌ c s) =
    let rest = trim_end s in if is_space (code c) && rest == "" then "" else String.◌∷◌ c rest

unfoldable pub trim : String → String
trim s = trim_end (trim_start s)

-- What a visitor does, an answer that arrives for a request, and a page of another product.
pub data AssistantAction : Type 0 where
  change_question press_key quick_prompt : String → AssistantAction
  click_ask : AssistantAction
  arrive : ℕ → AssistantAction
  show_product : String → AssistantAction

-- The `productId` of the provider, `aiQuestion`, the observer, and the requests made, the latest first.
pub record Panel (Observer : Type 0) : Type 0 where
  pub product_id : String
  pub ai_question : String
  pub observer : Observer
  pub requests : List ApiCall

abbrev pub request_number : ℕ → List ApiCall → Option ApiCall
request_number n [] = none
request_number n (call ∷ earlier) =
    let rest = request_number n earlier in if eqb n (length earlier) then some call else rest

-- `aiResponse`, `aiLoading` and `aiError` of the provider.
abbrev pub ai_response : MutationResult → Option AiResponse
ai_response (success undefined) = none
ai_response (success a) = some a
ai_response _ = none

abbrev pub ai_loading : MutationResult → Bool
ai_loading pending = true
ai_loading _ = false

abbrev pub ai_error : MutationResult → Option Failure
ai_error (failure e) = some e
ai_error _ = none

-- The text of the message `AIAnswer`, if the page has one.
abbrev pub answer_text : Option AiResponse → Option String
answer_text (some (plain s)) = if s == "" then none else some s
answer_text (some (with_text s)) = some s
answer_text _ = none

module _ (mutations : Mutations) (server : ℕ → ApiCall → Outcome AiResponse) where
  abbrev pub shown_result : Panel mutations.Observer → MutationResult
  shown_result p = mutations.result p.observer

  -- `sendAiRequest`, which starts the mutation with `mutationFn`.
  abbrev pub send_ai_request : String → Panel mutations.Observer → Panel mutations.Observer
  send_ai_request question p = record p {
    observer = mutations.mutate (length p.requests) p.observer;
    requests = ApiCall.ask_product_ai_assistant p.product_id question ∷ p.requests;
  }

  abbrev pub clear : Panel mutations.Observer → Panel mutations.Observer
  clear p = record p { observer = mutations.reset p.observer }

  abbrev pub ask_trimmed : String → Panel mutations.Observer → Panel mutations.Observer
  ask_trimmed q p = if q == "" then p else send_ai_request q (clear p)

  unfoldable pub handle_ask_ai : Option String → Panel mutations.Observer → Panel mutations.Observer
  unfolding trim
  handle_ask_ai none p = ask_trimmed (trim p.ai_question) p
  handle_ask_ai (some question_override) p = ask_trimmed (trim question_override) p

  -- The prompt stands in the input from the next render on.
  unfoldable pub handle_quick_prompt : String → Panel mutations.Observer → Panel mutations.Observer
  unfolding handle_ask_ai
  handle_quick_prompt prompt p = record (handle_ask_ai (some prompt) p) { ai_question = prompt }

  unfoldable pub on_key_down : String → Panel mutations.Observer → Panel mutations.Observer
  unfolding handle_ask_ai trim
  on_key_down key p =
      if key == "Enter" && (not (ai_loading (shown_result p)) && not (trim p.ai_question == ""))
      then handle_ask_ai none p
      else p

  -- The button is `disabled` while an answer is awaited, and when there is no question.
  unfoldable pub on_click_ask : Panel mutations.Observer → Panel mutations.Observer
  unfolding handle_ask_ai trim
  on_click_ask p =
      if ai_loading (shown_result p) || trim p.ai_question == "" then p else handle_ask_ai none p

  abbrev pub deliver : ℕ → Option ApiCall → Panel mutations.Observer → Panel mutations.Observer
  deliver n none p = p
  deliver n (some call) p = record p { observer = mutations.settle n (server n call) p.observer }

  -- `useEffect(() => { mutation.reset(); }, [productId])`, with the `productId` that is new.
  abbrev pub change_product : String → Panel mutations.Observer → Panel mutations.Observer
  change_product id p = if id == p.product_id then p else clear (record p { product_id = id })

  unfoldable pub take_action : AssistantAction → Panel mutations.Observer → Panel mutations.Observer
  unfolding handle_quick_prompt on_key_down on_click_ask
  take_action (change_question text) p = record p { ai_question = text }
  take_action (press_key key) p = on_key_down key p
  take_action (quick_prompt prompt) p = handle_quick_prompt prompt p
  take_action click_ask p = on_click_ask p
  take_action (arrive n) p = deliver n (request_number n p.requests) p
  take_action (show_product id) p = change_product id p

  unfoldable pub take_actions :
      List AssistantAction → Panel mutations.Observer → Panel mutations.Observer
  unfolding take_action
  take_actions [] p = p
  take_actions (a ∷ rest) p = take_actions rest (take_action a p)
