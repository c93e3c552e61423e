-- ===== src/Assistant/Arrivals.antt =====
-- The answer to a question, among the answers to others.
use mathlib.Core.Option.{some-injective}
use opentelemetry_demo_mb3r.Prelude.{
  ℕ, String, ◌≡◌, ◌≢◌, refl, sym, ap, ◌∙◌, Bool, true, false, Option, none, some, List, [], ◌∷◌,
  map, length, eqb, if◌then◌else◌, ◌==◌, eq_iff, Bool-cases, inl, inr, arith,
}
use opentelemetry_demo_mb3r.Promise.{Outcome}
use opentelemetry_demo_mb3r.Client.{ApiCall}
use opentelemetry_demo_mb3r.Assistant.{
  AiResponse, pending, result_of, Mutations, trim, arrive, Panel, request_number, shown_result,
  send_ai_request, clear, ask_trimmed, handle_ask_ai, deliver, take_action, take_actions,
}

abbrev pub has_arrived : ℕ → List ℕ → Bool
has_arrived n [] = false
has_arrived n (m ∷ ns) = let rest = has_arrived n ns in if eqb m n then true else rest

-- The question of `handleAskAI`.
abbrev pub asked : Option String → String → String
asked none ai_question = trim ai_question
asked (some question_override) ai_question = trim question_override

equal : (m n : ℕ) → eqb m n ≡ true → m ≡ n
equal m n h = ground arith

different : (m n : ℕ) → eqb m n ≡ false → m ≢ n
different m n h e = ground arith

not_empty : (q : String) → q ≢ "" → (q == "") ≡ false
not_empty q ne = elim (Bool-cases (q == "")) [ inl e ↦ absurd (ne ((eq_iff q "").0 e)) | inr e ↦ e ]

request_number-of_latest :
    (m : ℕ) (call : ApiCall) (earlier : List ApiCall)
    → eqb m (length earlier) ≡ true
    → request_number m (call ∷ earlier) ≡ some call
request_number-of_latest m call earlier e = rw e refl

choose :
    {A : Type 0} (b c : Bool) (x y y' : A)
    → y' ≡ (if b then x else y)
    → (if c then x else y') ≡ (if (if b then true else c) then x else y)
choose true true x y y' h = refl
choose true false x y y' h = h
choose false true x y y' h = refl
choose false false x y y' h = h

module _ (mutations : Mutations) (server : ℕ → ApiCall → Outcome AiResponse) where
  -- What one more answer changes, where the latest request is watched.
  abbrev IsStep : ℕ → Bool → ApiCall → Panel mutations.Observer → Panel mutations.Observer → Type 0
  IsStep n b call p p' =
      (mutations.watched p'.observer ≡ some n)
      × (p'.requests ≡ p.requests)
      × (shown_result mutations server p'
          ≡ (if b then result_of (server n call) else shown_result mutations server p))

  deliver-latest :
      (n : ℕ) (call : ApiCall) (p : Panel mutations.Observer)
      → mutations.watched p.observer ≡ some n
      → IsStep n true call p (deliver mutations server n (some call) p)
  deliver-latest n call p w = (
    mutations.watched_settle n (server n call) p.observer ∙ w,
    refl,
    mutations.result_settle n (server n call) p.observer w,
  )

  deliver-other :
      (n m : ℕ) (call : ApiCall) (o : Option ApiCall) (p : Panel mutations.Observer)
      → mutations.watched p.observer ≡ some n
      → m ≢ n
      → IsStep n false call p (deliver mutations server m o p)
  deliver-other n m call none p w ne = (w, refl, refl)
  deliver-other n m call (some c) p w ne = (
    mutations.watched_settle m (server m c) p.observer ∙ w,
    refl,
    mutations.result_settle_other m (server m c) p.observer
        (λ e. ne (some-injective _ _ (sym e ∙ w))),
  )

  deliver-IsStep :
      (m : ℕ) (p : Panel mutations.Observer) (call : ApiCall) (earlier : List ApiCall)
      → mutations.watched p.observer ≡ some (length earlier)
      → p.requests ≡ call ∷ earlier
      → IsStep
          (length earlier)
          (eqb m (length earlier))
          call
          p
          (deliver mutations server m (request_number m p.requests) p)
  deliver-IsStep m p call earlier w r = elim (Bool-cases (eqb m (length earlier))) [
    | inl e ↦
        let found = ap (request_number m) r ∙ request_number-of_latest m call earlier e in
        rw (found, e, equal m (length earlier) e) (deliver-latest (length earlier) call p w)
    | inr ne ↦ rw ne (
        deliver-other (length earlier) m call (request_number m p.requests) p w
          (different m (length earlier) ne))
  ]

  shown_result-arrivals :
      (ns : List ℕ) (p : Panel mutations.Observer) (call : ApiCall) (earlier : List ApiCall)
      → mutations.watched p.observer ≡ some (length earlier)
      → p.requests ≡ call ∷ earlier
      → shown_result mutations server (take_actions mutations server (map arrive ns) p) ≡ (
          if has_arrived (length earlier) ns
          then result_of (server (length earlier) call)
          else shown_result mutations server p)
  unfolding take_actions take_action
  shown_result-arrivals [] p call earlier w r = refl
  shown_result-arrivals (m ∷ ns) p call earlier w r =
      let p' = deliver mutations server m (request_number m p.requests) p in
      let step = deliver-IsStep m p call earlier w r in
      shown_result-arrivals ns p' call earlier step.0 (step.1 ∙ r)
      ∙ choose (eqb m (length earlier)) (has_arrived (length earlier) ns)
          (result_of (server (length earlier) call)) (shown_result mutations server p)
          (shown_result mutations server p') step.2

  shown_result-send_ai_request :
      (q : String) (ns : List ℕ) (p : Panel mutations.Observer)
      → shown_result mutations server
          (take_actions mutations server (map arrive ns) (send_ai_request mutations server q p))
        ≡ (if has_arrived (length p.requests) ns
            then result_of
                (server (length p.requests) (ApiCall.ask_product_ai_assistant p.product_id q))
            else pending)
  shown_result-send_ai_request q ns p =
      shown_result-arrivals ns (send_ai_request mutations server q p)
        (ApiCall.ask_product_ai_assistant p.product_id q) p.requests
        (mutations.watched_mutate (length p.requests) p.observer) refl
      ∙ ap
          (λ r.
            if has_arrived (length p.requests) ns
            then result_of
                (server (length p.requests) (ApiCall.ask_product_ai_assistant p.product_id q))
            else r)
          (mutations.result_mutate (length p.requests) p.observer)

  shown_result-ask_trimmed :
      (q : String) (ns : List ℕ) (p : Panel mutations.Observer)
      → q ≢ ""
      → shown_result mutations server
          (take_actions mutations server (map arrive ns) (ask_trimmed mutations server q p))
        ≡ (if has_arrived (length p.requests) ns
            then result_of
                (server (length p.requests) (ApiCall.ask_product_ai_assistant p.product_id q))
            else pending)
  shown_result-ask_trimmed q ns p ne =
      rw (not_empty q ne) (shown_result-send_ai_request q ns (clear mutations server p))

  -- After a question that is not blank, whatever the order in which the answers to it and to earlier
  -- requests arrive, the panel shows the answer to the question once that has arrived, and waits until
  -- then.
  pub shown_result-handle_ask_ai :
      (question_override : Option String) (ns : List ℕ) (p : Panel mutations.Observer)
      → asked question_override p.ai_question ≢ ""
      → (let n = length p.requests in
          let call =
            ApiCall.ask_product_ai_assistant p.product_id (asked question_override p.ai_question) in
          shown_result mutations server (
            take_actions mutations server
              (map arrive ns)
              (handle_ask_ai mutations server question_override p))
          ≡ (if has_arrived n ns then result_of (server n call) else pending))
  unfolding handle_ask_ai
  shown_result-handle_ask_ai none ns p h = shown_result-ask_trimmed (trim p.ai_question) ns p h
  shown_result-handle_ask_ai (some q) ns p h = shown_result-ask_trimmed (trim q) ns p h
