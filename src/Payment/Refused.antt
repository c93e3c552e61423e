-- ===== src/Payment/Refused.antt =====
-- What a charge that throws leaves behind.
use opentelemetry_demo_mb3r.Prelude.{
  ◌≡◌, ◌≢◌, ◌↔◌, refl, true, false, Bool, Option, none, some, String, ℤ, ◌&&◌, not, if◌then◌else◌,
  [],
}
use opentelemetry_demo_mb3r.Payment.{
  CardDetails, Card, Amount, ChargeRequest, Surroundings, Charge, threw, ChargeError, refuse,
  is_accepted, is_expired, complete, check_card, charge_number, charge_card, after_provider,
  after_flag, charge, Span, new_span, checked_span, invalid_token, invalid_card, unaccepted_card,
  expired, type_error, provider_failed,
}

-- If it throws, then no transaction is counted, and its span was ended only for the flag's error.
abbrev pub IsUnpaid : Charge → Type 0
IsUnpaid c =
    (e : ChargeError)
    → c.result ≡ threw e
    → (c.transactions ≡ []) × ((c.span.is_ended ≡ true) ↔ (e ≡ invalid_token))

IsUnpaid-if : (b : Bool) (x y : Charge) → IsUnpaid x → IsUnpaid y → IsUnpaid (if b then x else y)
IsUnpaid-if true x y h k = h
IsUnpaid-if false x y h k = k

refuse-IsUnpaid :
    (e : ChargeError) (span : Span)
    → e ≢ invalid_token
    → span.is_ended ≡ false
    → IsUnpaid (refuse e span)
refuse-IsUnpaid e span ne running e' h = (refl, (λ ended. absurd (cc), λ same. absurd (ne (cc))))

expired_ne : (number : String) (year month : Option ℤ) → expired number year month ≢ invalid_token
expired_ne number (some year) (some month) h = cc
expired_ne number (some year) none h = cc
expired_ne number none month h = cc

complete-IsUnpaid :
    (env : Surroundings) (span : Span) (amount : Option Amount)
    → span.is_ended ≡ false
    → IsUnpaid (complete env span amount)
unfolding complete
complete-IsUnpaid env span none running = refuse-IsUnpaid type_error span (λ h. cc) running
complete-IsUnpaid env span (some amount) running = λ e h. absurd (cc)

after_flag-IsUnpaid : (flag : Bool) (c : Charge) → IsUnpaid c → IsUnpaid (after_flag flag c)
after_flag-IsUnpaid true c h = λ e same. (refl, (λ _. cc, λ _. refl))
after_flag-IsUnpaid false c h = h

after_provider-IsUnpaid :
    (p : Option String) (c : Charge) → IsUnpaid c → IsUnpaid (after_provider p c)
after_provider-IsUnpaid (some e) c h = refuse-IsUnpaid (provider_failed e) new_span (λ k. cc) refl
after_provider-IsUnpaid none c h = h

module _ (validate : String → CardDetails) (env : Surroundings) where
  check_card-IsUnpaid :
      (amount : Option Amount) (card : Card) (number : String)
      → IsUnpaid (check_card validate env amount card number)
  unfolding check_card
  check_card-IsUnpaid amount card number =
      let span = checked_span validate env (validate number) in
      IsUnpaid-if (not (validate number).valid) _ _
        (refuse-IsUnpaid invalid_card span (λ h. cc) refl)
        (IsUnpaid-if (not (is_accepted (validate number).card_type)) _ _
          (refuse-IsUnpaid (unaccepted_card (validate number).card_type) span (λ h. cc) refl)
          (IsUnpaid-if (is_expired env.current_year env.current_month card.year card.month) _ _
            (refuse-IsUnpaid (expired number card.year card.month) span
              (expired_ne number card.year card.month) refl)
            (complete-IsUnpaid env _ amount refl)))

  charge_number-IsUnpaid :
      (amount : Option Amount) (card : Card) (o : Option String)
      → IsUnpaid (charge_number validate env amount card o)
  charge_number-IsUnpaid amount card none = refuse-IsUnpaid type_error new_span (λ h. cc) refl
  charge_number-IsUnpaid amount card (some number) = check_card-IsUnpaid amount card number

  charge_card-IsUnpaid :
      (amount : Option Amount) (o : Option Card) → IsUnpaid (charge_card validate env amount o)
  charge_card-IsUnpaid amount none = refuse-IsUnpaid type_error new_span (λ h. cc) refl
  charge_card-IsUnpaid amount (some card) = charge_number-IsUnpaid amount card card.number

-- A charge that throws counts no transaction, and ended its span exactly if it was the flag that
-- made it throw.
pub charge_threw :
    (validate : String → CardDetails) (env : Surroundings) (req : ChargeRequest) (e : ChargeError)
    → (charge validate env req).result ≡ threw e
    → ((charge validate env req).transactions ≡ [])
      × (((charge validate env req).span.is_ended ≡ true) ↔ (e ≡ invalid_token))
unfolding charge
charge_threw validate env req e h =
    after_provider-IsUnpaid env.provider_failure _
      (after_flag-IsUnpaid (env.is_variant_positive && env.is_draw_below) _
        (charge_card-IsUnpaid validate env req.amount req.credit_card))
      e h
