-- ===== src/Tests/Assistant.antt =====
-- The questions to the assistant, over an observer that keeps the number and the result of the
-- mutation that it watches.
use opentelemetry_demo_mb3r.Prelude.{
  ℕ, ◌≡◌, ◌≢◌, refl, Bool, true, false, Option, none, some, [], ◌∷◌, map, eqb, if◌then◌else◌,
  Bool-cases, inl, inr, arith,
}
use opentelemetry_demo_mb3r.Calls.{syntax_error}
use opentelemetry_demo_mb3r.Promise.{Outcome, fulfilled, failed}
use opentelemetry_demo_mb3r.Client.{ApiCall}
use opentelemetry_demo_mb3r.Assistant.{
  AiResponse, plain, MutationResult, idle, pending, result_of, Mutations, trim, change_question,
  quick_prompt, click_ask, arrive, show_product, Panel, shown_result, handle_ask_ai,
  handle_quick_prompt, on_click_ask, take_action, take_actions,
}
use opentelemetry_demo_mb3r.Assistant.Latest.{IsAnswerOfLast, shown_result-take_actions}
use opentelemetry_demo_mb3r.Assistant.Arrivals.{shown_result-handle_ask_ai}

abbrev Watch : Type 0
Watch = Option ℕ × MutationResult

abbrev is_watched : ℕ → Option ℕ → Bool
is_watched n none = false
is_watched n (some m) = eqb m n

is_watched_lem : (n : ℕ) (w : Option ℕ) → w ≡ some n → is_watched n w ≡ true
is_watched_lem n none h = absurd (cc)
is_watched_lem n (some m) h = ground arith

is_watched_other : (n : ℕ) (w : Option ℕ) → w ≢ some n → is_watched n w ≡ false
is_watched_other n none h = refl
is_watched_other n (some m) h = elim (Bool-cases (eqb m n)) [
  | inl e ↦ absurd (h (ground arith))
  | inr e ↦ e
]

abbrev test_mutations : Mutations
test_mutations = record {
  Observer = Watch;
  watched = λ o. o.0;
  result = λ o. o.1;
  mutate = λ n o. (some n, pending);
  reset = λ o. (none, idle);
  settle = λ n outcome o. (o.0, if is_watched n o.0 then result_of outcome else o.1);
  watched_mutate = λ n o. refl;
  result_mutate = λ n o. refl;
  watched_reset = λ o. refl;
  result_reset = λ o. refl;
  watched_settle = λ n outcome o. refl;
  result_settle = λ n outcome o h. rw (is_watched_lem n o.0 h) refl;
  result_settle_other = λ n outcome o h. rw (is_watched_other n o.0 h) refl;
}

-- The second request fails.
abbrev test_server : ℕ → ApiCall → Outcome AiResponse
test_server n call = if eqb n 1 then failed syntax_error else fulfilled (plain "It is sturdy.")

abbrev test_panel : Panel Watch
test_panel = record {
  product_id = "OLJCESPC7Z";
  ai_question = " Is it sturdy? ";
  observer = (none, idle);
  requests = [];
}

-- Two questions of which the first is answered last, another product, and a question about it.
shown_result-take_actions_example :
    IsAnswerOfLast test_server (fulfilled (plain "It is sturdy.")) "66VCHSJNUP" (
      ApiCall.ask_product_ai_assistant "66VCHSJNUP" "Is it sturdy?"
      ∷ ApiCall.ask_product_ai_assistant "OLJCESPC7Z" "What age(s) is this recommended for?"
      ∷ ApiCall.ask_product_ai_assistant "OLJCESPC7Z" "Is it sturdy?"
      ∷ [])
unfolding take_actions take_action handle_quick_prompt on_click_ask handle_ask_ai trim
shown_result-take_actions_example =
    shown_result-take_actions test_mutations test_server
      (click_ask
        ∷ quick_prompt "What age(s) is this recommended for?"
        ∷ arrive 1
        ∷ arrive 0
        ∷ show_product "66VCHSJNUP"
        ∷ change_question "Is it sturdy?"
        ∷ click_ask
        ∷ arrive 2
        ∷ [])
      test_panel (fulfilled (plain "It is sturdy.")) refl refl refl

shown_result-handle_ask_ai_example :
    shown_result test_mutations test_server (
      take_actions test_mutations test_server
        (map arrive (1 ∷ 0 ∷ []))
        (handle_ask_ai test_mutations test_server none test_panel))
    ≡ result_of (fulfilled (plain "It is sturdy."))
unfolding trim
shown_result-handle_ask_ai_example =
    shown_result-handle_ask_ai test_mutations test_server none (1 ∷ 0 ∷ []) test_panel
      (λ h. absurd (cc))
