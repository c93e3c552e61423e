-- ===== src/Form/Changes.antt =====
-- The order that the visitor's changes of the form lead to, from the page to the service.
use opentelemetry_demo_mb3r.Prelude.{
  ℤ, String, ◌≡◌, refl, ap, ◌∙◌, Bool, true, false, some, List, [], ◌∷◌, if◌then◌else◌,
}
use opentelemetry_demo_mb3r.Calls.{Call}
use opentelemetry_demo_mb3r.Promise.{first_call}
use opentelemetry_demo_mb3r.Api.Routes.{handle}
use opentelemetry_demo_mb3r.Client.{ApiCall, request_of}
use opentelemetry_demo_mb3r.Form.{
  FieldValue, typed, FormData, Field, initial_form, handle_change, fill, text_of, number_of,
  order_of,
}

abbrev pub value_of : Field → FormData → FieldValue
value_of Field.email form = typed form.email
value_of Field.street_address form = typed form.street_address
value_of Field.city form = typed form.city
value_of Field.state form = typed form.state
value_of Field.country form = typed form.country
value_of Field.zip_code form = typed form.zip_code
value_of Field.credit_card_number form = typed form.credit_card_number
value_of Field.credit_card_cvv form = form.credit_card_cvv
value_of Field.credit_card_expiration_year form = form.credit_card_expiration_year
value_of Field.credit_card_expiration_month form = form.credit_card_expiration_month

abbrev pub same_field : Field → Field → Bool
same_field Field.email Field.email = true
same_field Field.email _ = false
same_field Field.street_address Field.street_address = true
same_field Field.street_address _ = false
same_field Field.city Field.city = true
same_field Field.city _ = false
same_field Field.state Field.state = true
same_field Field.state _ = false
same_field Field.country Field.country = true
same_field Field.country _ = false
same_field Field.zip_code Field.zip_code = true
same_field Field.zip_code _ = false
same_field Field.credit_card_number Field.credit_card_number = true
same_field Field.credit_card_number _ = false
same_field Field.credit_card_cvv Field.credit_card_cvv = true
same_field Field.credit_card_cvv _ = false
same_field Field.credit_card_expiration_year Field.credit_card_expiration_year = true
same_field Field.credit_card_expiration_year _ = false
same_field Field.credit_card_expiration_month Field.credit_card_expiration_month = true
same_field Field.credit_card_expiration_month _ = false

-- The value that the visitor typed last into a field, or the value from before.
abbrev pub last_typed : Field → FieldValue → List (Field × String) → FieldValue
last_typed field before [] = before
last_typed field before ((field', value) ∷ changes) =
    last_typed field (if same_field field field' then typed value else before) changes

value_of-handle_change :
    (field field' : Field) (value : String) (form : FormData)
    → value_of field (handle_change field' value form)
      ≡ (if same_field field field' then typed value else value_of field form)
unfolding handle_change
value_of-handle_change Field.email Field.email value form = refl
value_of-handle_change Field.email _ value form = refl
value_of-handle_change Field.street_address Field.street_address value form = refl
value_of-handle_change Field.street_address _ value form = refl
value_of-handle_change Field.city Field.city value form = refl
value_of-handle_change Field.city _ value form = refl
value_of-handle_change Field.state Field.state value form = refl
value_of-handle_change Field.state _ value form = refl
value_of-handle_change Field.country Field.country value form = refl
value_of-handle_change Field.country _ value form = refl
value_of-handle_change Field.zip_code Field.zip_code value form = refl
value_of-handle_change Field.zip_code _ value form = refl
value_of-handle_change Field.credit_card_number Field.credit_card_number value form = refl
value_of-handle_change Field.credit_card_number _ value form = refl
value_of-handle_change Field.credit_card_cvv Field.credit_card_cvv value form = refl
value_of-handle_change Field.credit_card_cvv _ value form = refl
value_of-handle_change Field.credit_card_expiration_year Field.credit_card_expiration_year value
      form =
    refl
value_of-handle_change Field.credit_card_expiration_year _ value form = refl
value_of-handle_change Field.credit_card_expiration_month Field.credit_card_expiration_month value
      form =
    refl
value_of-handle_change Field.credit_card_expiration_month _ value form = refl

value_of-fill :
    (field : Field) (changes : List (Field × String)) (form : FormData)
    → value_of field (fill changes form) ≡ last_typed field (value_of field form) changes
unfolding fill
value_of-fill field [] form = refl
value_of-fill field ((field', value) ∷ changes) form =
    value_of-fill field changes (handle_change field' value form)
    ∙ ap (λ v. last_typed field v changes) (value_of-handle_change field field' value form)

-- What a field holds after the changes of a form that starts with the initial values.
abbrev pub entered : Field → List (Field × String) → FieldValue
entered field changes = last_typed field (value_of field initial_form) changes

-- Whatever the visitor changes in the form: placing the order makes the checkout route ask the
-- service, as its first call, for an order of this user in the selected currency, in which every
-- field of the address and the card is what was typed last into its input, or its initial value.
pub placed_form :
    (int32_of : String → ℤ) (user_id selected_currency : String) (changes : List (Field × String))
    → first_call (
        handle (
          request_of user_id (
            ApiCall.place_order selected_currency
              (order_of int32_of user_id selected_currency (fill changes initial_form)))))
      ≡ some (
          Call.place_order (record {
            user_id = user_id;
            user_currency = selected_currency;
            email = text_of (entered Field.email changes);
            address = some (record {
              street_address = text_of (entered Field.street_address changes);
              city = text_of (entered Field.city changes);
              state = text_of (entered Field.state changes);
              country = text_of (entered Field.country changes);
              zip_code = text_of (entered Field.zip_code changes);
            });
            credit_card = some (record {
              credit_card_number = text_of (entered Field.credit_card_number changes);
              credit_card_cvv = number_of int32_of (entered Field.credit_card_cvv changes);
              credit_card_expiration_year =
                  number_of int32_of (entered Field.credit_card_expiration_year changes);
              credit_card_expiration_month =
                  number_of int32_of (entered Field.credit_card_expiration_month changes);
            });
          }))
unfolding handle request_of first_call order_of
placed_form int32_of user_id selected_currency changes = λ i. some (
    Call.place_order (record {
      user_id = user_id;
      user_currency = selected_currency;
      email = text_of (value_of-fill Field.email changes initial_form i);
      address = some (record {
        street_address = text_of (value_of-fill Field.street_address changes initial_form i);
        city = text_of (value_of-fill Field.city changes initial_form i);
        state = text_of (value_of-fill Field.state changes initial_form i);
        country = text_of (value_of-fill Field.country changes initial_form i);
        zip_code = text_of (value_of-fill Field.zip_code changes initial_form i);
      });
      credit_card = some (record {
        credit_card_number =
            text_of (value_of-fill Field.credit_card_number changes initial_form i);
        credit_card_cvv =
            number_of int32_of (value_of-fill Field.credit_card_cvv changes initial_form i);
        credit_card_expiration_year =
            number_of int32_of
              (value_of-fill Field.credit_card_expiration_year changes initial_form i);
        credit_card_expiration_month =
            number_of int32_of
              (value_of-fill Field.credit_card_expiration_month changes initial_form i);
      });
    }))
