-- ===== src/Assistant/Latest.antt =====
-- Whose answer the section shows, whatever the order in which the answers arrive.
use opentelemetry_demo_mb3r.Prelude.{
  ℕ, String, ◌≡◌, ◌≢◌, sym, ap, ◌∙◌, subst, Option, none, some, List, [], ◌∷◌, length, inl, inr,
}
use opentelemetry_demo_mb3r.Promise.{Outcome, fulfilled, failed}
use opentelemetry_demo_mb3r.Client.{ApiCall}
use opentelemetry_demo_mb3r.Assistant.{
  AiResponse, MutationResult, idle, pending, result_of, Mutations, AssistantAction, Panel,
  shown_result, clear, take_actions,
}
use opentelemetry_demo_mb3r.Assistant.Faithful.{IsQuestion, IsLatest, take_actions-IsFaithful}

-- What is shown is what the server answered to the latest request, which was a question about the
-- product that is shown.
abbrev pub IsAnswerOfLast :
    (ℕ → ApiCall → Outcome AiResponse) → Outcome AiResponse → String → List ApiCall → Type 0
IsAnswerOfLast server outcome product_id [] = ⊥
IsAnswerOfLast server outcome product_id (call ∷ earlier) =
    IsQuestion product_id call × (server (length earlier) call ≡ outcome)

result_of_injective : (o p : Outcome AiResponse) → result_of o ≡ result_of p → o ≡ p
result_of_injective (fulfilled a) (fulfilled b) h = cc
result_of_injective (fulfilled a) (failed e) h = absurd (cc)
result_of_injective (failed e) (fulfilled b) h = absurd (cc)
result_of_injective (failed e) (failed f) h = cc

module _ (mutations : Mutations) (server : ℕ → ApiCall → Outcome AiResponse) where
  pending-result_of : (outcome : Outcome AiResponse) → pending ≢ result_of outcome
  pending-result_of (fulfilled a) h = absurd (cc)
  pending-result_of (failed e) h = absurd (cc)

  idle-result_of : (outcome : Outcome AiResponse) → idle ≢ result_of outcome
  idle-result_of (fulfilled a) h = absurd (cc)
  idle-result_of (failed e) h = absurd (cc)

  IsLatest-answer :
      (id : String) (outcome : Outcome AiResponse) (r : MutationResult) (w : Option ℕ)
      (calls : List ApiCall)
      → r ≡ result_of outcome
      → IsLatest mutations server id r w calls
      → IsAnswerOfLast server outcome id calls
  IsLatest-answer id outcome r none calls e h = absurd (idle-result_of outcome (sym h ∙ e))
  IsLatest-answer id outcome r (some n) [] e h = h
  IsLatest-answer id outcome r (some n) (call ∷ earlier) e h = elim h.2 [
    | inl waits ↦ absurd (pending-result_of outcome (sym waits ∙ e))
    | inr settled ↦ (
      h.1,
      ap (λ k. server k call) (sym h.0)
          ∙ result_of_injective (server n call) outcome (sym settled ∙ e),
    )
  ]

  -- Whatever a visitor does, and in whatever order answers arrive: an answer or an error that is
  -- shown is what the server answered to the latest request that was made, which was a question that
  -- is not empty about the product that is shown, if the panel shows nothing at first.
  pub shown_result-take_actions :
      (actions : List AssistantAction) (p : Panel mutations.Observer) (outcome : Outcome AiResponse)
      → mutations.watched p.observer ≡ none
      → mutations.result p.observer ≡ idle
      → shown_result mutations server (take_actions mutations server actions p) ≡ result_of outcome
      → (let after = take_actions mutations server actions p in
          IsAnswerOfLast server outcome after.product_id after.requests)
  shown_result-take_actions actions p outcome fresh clear e =
      let after = take_actions mutations server actions p in
      IsLatest-answer after.product_id outcome (shown_result mutations server after)
        (mutations.watched after.observer) after.requests e
        (take_actions-IsFaithful mutations server actions p (
          subst
            (λ w. IsLatest mutations server p.product_id (mutations.result p.observer) w p.requests)
            (sym fresh) clear))
