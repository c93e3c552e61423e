-- ===== src/Assistant/Faithful.antt =====
-- The request that the observer watches, as actions change it.
use native.Mathlib.Decide.{ℕ_discrete}
use mathlib.Core.Option.{some-injective}
use opentelemetry_demo_mb3r.Prelude.{
  ℕ, String, ◌≡◌, ◌≢◌, refl, sym, ap, ◌∙◌, subst, Bool, true, false, Option, none, some, List, [],
  ◌∷◌, length, if◌then◌else◌, ◌==◌, eq_iff, Bool-cases, inl, inr, ◌⊎◌, arith,
}
use opentelemetry_demo_mb3r.Promise.{Outcome}
use opentelemetry_demo_mb3r.Client.{ApiCall}
use opentelemetry_demo_mb3r.Assistant.{
  AiResponse, MutationResult, idle, pending, result_of, Mutations, trim, AssistantAction,
  change_question, press_key, quick_prompt, click_ask, arrive, show_product, Panel, request_number,
  send_ai_request, clear, ask_trimmed, handle_ask_ai, handle_quick_prompt, on_key_down,
  on_click_ask, deliver, change_product, take_action, take_actions,
}

-- A question that is not empty, about a product.
abbrev pub IsQuestion : String → ApiCall → Type 0
IsQuestion product_id call =
    (q : String) × (call ≡ ApiCall.ask_product_ai_assistant product_id q) × (q ≢ "")

pair_path : {m n : ℕ} {c d : ApiCall} → m ≡ n → c ≡ d → ◌≡◌ {A = ℕ × ApiCall} (m, c) (n, d)
pair_path e h = cc

module _ (mutations : Mutations) (server : ℕ → ApiCall → Outcome AiResponse) where
  -- The state of the observer, by the request that it watches.
  abbrev pub IsLatest : String → MutationResult → Option ℕ → List ApiCall → Type 0
  IsLatest id r none calls = r ≡ idle
  IsLatest id r (some n) [] = ⊥
  IsLatest id r (some n) (call ∷ earlier) =
      (n ≡ length earlier) × IsQuestion id call × ((r ≡ pending) ⊎ (r ≡ result_of (server n call)))

  abbrev pub IsFaithful : Panel mutations.Observer → Type 0
  IsFaithful p =
      IsLatest p.product_id (mutations.result p.observer) (mutations.watched p.observer) p.requests

  clear-IsFaithful : (p : Panel mutations.Observer) → IsFaithful (clear mutations server p)
  clear-IsFaithful p = rw (mutations.watched_reset p.observer) (mutations.result_reset p.observer)

  send_ai_request-IsFaithful :
      (q : String) (p : Panel mutations.Observer)
      → q ≢ ""
      → IsFaithful (send_ai_request mutations server q p)
  send_ai_request-IsFaithful q p ne =
      rw (mutations.watched_mutate (length p.requests) p.observer)
        (refl, (q, refl, ne), inl (mutations.result_mutate (length p.requests) p.observer))

  ask_trimmed-IsFaithful :
      (q : String) (p : Panel mutations.Observer)
      → IsFaithful p
      → IsFaithful (ask_trimmed mutations server q p)
  ask_trimmed-IsFaithful q p h = elim (Bool-cases (q == "")) [
    | inl e ↦ rw e h
    | inr e ↦ rw e (
        send_ai_request-IsFaithful q (clear mutations server p)
          (λ same. ground (arith, eq_iff q "")))
  ]

  handle_ask_ai-IsFaithful :
      (o : Option String) (p : Panel mutations.Observer)
      → IsFaithful p
      → IsFaithful (handle_ask_ai mutations server o p)
  unfolding handle_ask_ai
  handle_ask_ai-IsFaithful none p h = ask_trimmed-IsFaithful (trim p.ai_question) p h
  handle_ask_ai-IsFaithful (some q) p h = ask_trimmed-IsFaithful (trim q) p h

  request_number-latest :
      (n : ℕ) (c call : ApiCall) (earlier : List ApiCall)
      → n ≡ length earlier
      → request_number n (c ∷ earlier) ≡ some call
      → c ≡ call
  request_number-latest n c call earlier e h = ground arith

  settled-IsLatest :
      (id : String) (r r' : MutationResult) (w : Option ℕ) (calls : List ApiCall) (n : ℕ)
      (call : ApiCall)
      → IsLatest id r w calls
      → request_number n calls ≡ some call
      → (w ≡ some n → r' ≡ result_of (server n call))
      → (w ≢ some n → r' ≡ r)
      → IsLatest id r' w calls
  settled-IsLatest id r r' none calls n call h found this others = others (λ e. absurd (cc)) ∙ h
  settled-IsLatest id r r' (some m) [] n call h found this others = absurd h
  settled-IsLatest id r r' (some m) (c ∷ earlier) n call h found this others =
      elim (ℕ_discrete m n) [
        | yes e ↦
            let one = request_number-latest n c call earlier (sym e ∙ h.0) found in
            (
              h.0,
              h.1,
              inr (
                  this (ap some e)
                  ∙ ap (λ x. result_of (server x.0 x.1)) (pair_path (sym e) (sym one))),
            )
        | no ne ↦
            subst (λ x. IsLatest id x (some m) (c ∷ earlier))
              (sym (others (λ e. ne (some-injective _ _ e)))) h
      ]

  deliver-found :
      (n : ℕ) (o : Option ApiCall) (p : Panel mutations.Observer)
      → request_number n p.requests ≡ o
      → IsFaithful p
      → IsFaithful (deliver mutations server n o p)
  deliver-found n none p found h = h
  deliver-found n (some call) p found h =
      let r = mutations.result (mutations.settle n (server n call) p.observer) in
      rw (mutations.watched_settle n (server n call) p.observer) (
        settled-IsLatest p.product_id (mutations.result p.observer) r (mutations.watched p.observer)
          p.requests n call h found (mutations.result_settle n (server n call) p.observer)
          (mutations.result_settle_other n (server n call) p.observer))

  deliver-IsFaithful :
      (n : ℕ) (p : Panel mutations.Observer)
      → IsFaithful p
      → IsFaithful (deliver mutations server n (request_number n p.requests) p)
  deliver-IsFaithful n p h = deliver-found n (request_number n p.requests) p refl h

  change_product-IsFaithful :
      (id : String) (p : Panel mutations.Observer)
      → IsFaithful p
      → IsFaithful (change_product mutations server id p)
  change_product-IsFaithful id p h = elim (Bool-cases (id == p.product_id)) [
    | inl e ↦ rw e h
    | inr e ↦ rw e (clear-IsFaithful (record p { product_id = id }))
  ]

  if-IsFaithful :
      (b : Bool) (p q : Panel mutations.Observer)
      → IsFaithful p
      → IsFaithful q
      → IsFaithful (if b then p else q)
  if-IsFaithful true p q hp hq = hp
  if-IsFaithful false p q hp hq = hq

  take_action-IsFaithful :
      (a : AssistantAction) (p : Panel mutations.Observer)
      → IsFaithful p
      → IsFaithful (take_action mutations server a p)
  unfolding take_action handle_quick_prompt on_key_down on_click_ask
  take_action-IsFaithful (change_question text) p h = h
  take_action-IsFaithful (press_key key) p h =
      if-IsFaithful _ (handle_ask_ai mutations server none p) p (handle_ask_ai-IsFaithful none p h)
        h
  take_action-IsFaithful (quick_prompt prompt) p h = handle_ask_ai-IsFaithful (some prompt) p h
  take_action-IsFaithful click_ask p h =
      if-IsFaithful _ p (handle_ask_ai mutations server none p) h
        (handle_ask_ai-IsFaithful none p h)
  take_action-IsFaithful (arrive n) p h = deliver-IsFaithful n p h
  take_action-IsFaithful (show_product id) p h = change_product-IsFaithful id p h

  pub take_actions-IsFaithful :
      (actions : List AssistantAction) (p : Panel mutations.Observer)
      → IsFaithful p
      → IsFaithful (take_actions mutations server actions p)
  unfolding take_actions
  take_actions-IsFaithful [] p h = h
  take_actions-IsFaithful (a ∷ rest) p h =
      take_actions-IsFaithful rest (take_action mutations server a p) (take_action-IsFaithful a p h)
