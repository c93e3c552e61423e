-- ===== src/Payment/Accepted.antt =====
-- Which charges are made, and what is counted.
use opentelemetry_demo_mb3r.Prelude.{
  ◌≡◌, Bool-cases, inl, inr, ◌⊎◌, ◌==◌, eq_iff, arith, refl, true, false, Bool, Option, none, some,
  String, ◌↔◌, ◌&&◌, not, if◌then◌else◌, sym, ◌∙◌, ap, [], ◌∷◌,
}
use opentelemetry_demo_mb3r.Payment.{
  CardDetails, Card, Amount, ChargeRequest, Surroundings, Charge, returned, ChargeError, refuse,
  is_accepted, is_expired, complete, check_card, charge_number, charge_card, after_provider,
  after_flag, charge, charge_service_handler, handle_amount, Span,
}

-- Neither the flag's provider nor the flag makes the charge fail.
abbrev pub IsUp : Surroundings → Type 0
IsUp env = (env.provider_failure ≡ none) × ((env.is_variant_positive && env.is_draw_below) ≡ false)

abbrev pub IsAccepted : String → Type 0
IsAccepted card_type = (card_type ≡ "visa") ⊎ (card_type ≡ "mastercard")

is_accepted-IsAccepted : (card_type : String) → is_accepted card_type ≡ true → IsAccepted card_type
is_accepted-IsAccepted card_type h = elim (Bool-cases (card_type == "visa")) [
  | inl e ↦ inl ((eq_iff card_type "visa").0 e)
  | inr e ↦ inr (ground (arith, eq_iff card_type "mastercard"))
]

IsAccepted-is_accepted : (card_type : String) → IsAccepted card_type → is_accepted card_type ≡ true
IsAccepted-is_accepted card_type (inl e) = rw e refl
IsAccepted-is_accepted card_type (inr e) = rw e refl

-- The validator takes the number for that of a valid card of an accepted type, and the card has
-- not expired.
abbrev pub IsGood : (String → CardDetails) → Surroundings → Card → String → Type 0
IsGood validate env card number =
    ((validate number).valid ≡ true)
    × IsAccepted (validate number).card_type
    × (is_expired env.current_year env.current_month card.year card.month ≡ false)

-- The request has an amount and a card with a number.
abbrev pub Names : ChargeRequest → Amount → Card → String → Type 0
Names req amount card number =
    (req.amount ≡ some amount) × (req.credit_card ≡ some card) × (card.number ≡ some number)

-- It has these, and they are good.
abbrev pub IsPayable : (String → CardDetails) → Surroundings → ChargeRequest → Type 0
IsPayable validate env req =
    (amount : Amount) × (card : Card) × (number : String) × Names req amount card number
    × IsGood validate env card number

returned_injective : {a b : String} → returned a ≡ returned b → a ≡ b
returned_injective h = cc

-- The result and the counted transactions of a charge.
abbrev pub Done : Charge → String → Amount → Type 0
Done c id amount =
    (c.result ≡ returned id)
    × (c.transactions ≡ amount.currency_code ∷ [])
    × (c.span.is_ended ≡ true)

guards :
    (v a x : Bool) (e e' e'' : ChargeError) (span : Span) (c : Charge) (id : String)
    → (if not v
        then refuse e span
        else if not a
        then refuse e' span
        else if x
        then refuse e'' span
        else c).result
      ≡ returned id
    → (v ≡ true) × (a ≡ true) × (x ≡ false) × (c.result ≡ returned id)
guards false a x e e' e'' span c id h = absurd (cc)
guards true false x e e' e'' span c id h = absurd (cc)
guards true true true e e' e'' span c id h = absurd (cc)
guards true true false e e' e'' span c id h = (refl, refl, refl, h)

let_pass :
    (p : Option String) (flag : Bool) (c : Charge) (id : String)
    → (after_provider p (after_flag flag c)).result ≡ returned id
    → (p ≡ none) × (flag ≡ false) × (c.result ≡ returned id)
let_pass (some e) flag c id h = absurd (cc)
let_pass none true c id h = absurd (cc)
let_pass none false c id h = (refl, refl, h)

module _ (validate : String → CardDetails) (env : Surroundings) where
  check_card-Done :
      (amount : Amount) (card : Card) (number : String)
      → IsGood validate env card number
      → Done (check_card validate env (some amount) card number) env.transaction_id amount
  unfolding check_card complete
  check_card-Done amount card number (valid, accepted, current) =
      rw (valid, IsAccepted-is_accepted (validate number).card_type accepted, current)
        (refl, refl, refl)

  complete-IsGood :
      (span : Span) (amount : Option Amount) (id : String)
      → (complete env span amount).result ≡ returned id
      → (a : Amount) × (amount ≡ some a)
  unfolding complete
  complete-IsGood span none id h = absurd (cc)
  complete-IsGood span (some a) id h = (a, refl)

  check_card-IsGood :
      (amount : Option Amount) (card : Card) (number : String) (id : String)
      → (check_card validate env amount card number).result ≡ returned id
      → IsGood validate env card number × ((a : Amount) × (amount ≡ some a))
  unfolding check_card
  check_card-IsGood amount card number id h =
      let (valid, accepted, current, h') =
        guards (validate number).valid (is_accepted (validate number).card_type)
          (is_expired env.current_year env.current_month card.year card.month) _ _ _ _ _ id h in
      (
        (valid, is_accepted-IsAccepted (validate number).card_type accepted, current),
        complete-IsGood _ amount id h',
      )

  charge_number-IsGood :
      (amount : Option Amount) (card : Card) (o : Option String) (id : String)
      → (charge_number validate env amount card o).result ≡ returned id
      → (n : String) × (o ≡ some n)
        × IsGood validate env card n
        × ((a : Amount) × (amount ≡ some a))
  charge_number-IsGood amount card none id h = absurd (cc)
  charge_number-IsGood amount card (some n) id h =
      let (good, paid) = check_card-IsGood amount card n id h in (n, refl, good, paid)

  charge_card-IsGood :
      (amount : Option Amount) (o : Option Card) (id : String)
      → (charge_card validate env amount o).result ≡ returned id
      → (card : Card) × (n : String) × (o ≡ some card)
        × (card.number ≡ some n)
        × IsGood validate env card n
        × ((a : Amount) × (amount ≡ some a))
  charge_card-IsGood amount none id h = absurd (cc)
  charge_card-IsGood amount (some card) id h =
      let (n, e, good, paid) = charge_number-IsGood amount card card.number id h in
      (card, n, refl, e, good, paid)

  -- If the flag lets it pass and the request names an amount and a card with a number that are good,
  -- then the charge returns the new identifier, counts one transaction in the currency of the
  -- amount, and ends its span.
  pub charge-Done :
      (req : ChargeRequest) (amount : Amount) (card : Card) (number : String)
      → IsUp env
      → Names req amount card number
      → IsGood validate env card number
      → Done (charge validate env req) env.transaction_id amount
  unfolding charge
  charge-Done req amount card number (up, flag) (a, c, n) good =
      rw (up, flag, a, c, n) (check_card-Done amount card number good)

  charge-IsGood :
      (req : ChargeRequest) (id : String)
      → (charge validate env req).result ≡ returned id
      → IsUp env × IsPayable validate env req
  unfolding charge
  charge-IsGood req id h =
      let (up, flag, h') =
        let_pass env.provider_failure (env.is_variant_positive && env.is_draw_below)
          (charge_card validate env req.amount req.credit_card) id h in
      let (card, number, c, n, good, (amount, a)) =
        charge_card-IsGood req.amount req.credit_card id h' in
      ((up, flag), (amount, card, number, (a, c, n), good))

  handle_amount-charge :
      (req : ChargeRequest) (o : Option Amount) (id : String)
      → handle_amount validate env req o ≡ returned id
      → (charge validate env req).result ≡ returned id
  handle_amount-charge req none id h = absurd (cc)
  handle_amount-charge req (some amount) id h = h

  handled :
      (req : ChargeRequest) (id : String)
      → charge_service_handler validate env req ≡ returned id
      → IsUp env × IsPayable validate env req × (env.transaction_id ≡ id)
  unfolding charge_service_handler
  handled req id h =
      let h' = handle_amount-charge req req.amount id h in
      let (up, (amount, card, number, named, good)) = charge-IsGood req id h' in
      let done = charge-Done req amount card number up named good in
      (up, (amount, card, number, named, good), returned_injective (sym done.0 ∙ h'))

  handles :
      (req : ChargeRequest) (id : String)
      → IsUp env × IsPayable validate env req × (env.transaction_id ≡ id)
      → charge_service_handler validate env req ≡ returned id
  unfolding charge_service_handler
  handles req id (up, (amount, card, number, named, good), e) =
      ap (handle_amount validate env req) named.0
      ∙ (charge-Done req amount card number up named good).0
      ∙ ap returned e

-- The handler answers with a transaction exactly if neither the flag nor its provider is in the way
-- and the request has an amount and a card whose number the validator takes for that of a valid Visa
-- card or MasterCard, and which has not expired; the transaction is then the new one.
pub charge_service_handler_lem :
    (validate : String → CardDetails) (env : Surroundings) (req : ChargeRequest) (id : String)
    → (charge_service_handler validate env req ≡ returned id)
      ↔ IsUp env × IsPayable validate env req × (env.transaction_id ≡ id)
charge_service_handler_lem validate env req id =
    (handled validate env req id, handles validate env req id)
