-- ===== src/Form.antt =====
-- The form of the checkout: src/frontend/components/CheckoutForm/CheckoutForm.tsx, and what
-- src/frontend/components/Cart/CartDetail.tsx makes of it. A field of numbers holds a text once
-- the visitor has changed it; `int32_of` is the integer that the encoder of the message takes for
-- such a text, which the generated code leaves to its library.
pub mod Changes
use opentelemetry_demo_mb3r.Prelude.{ℤ, pos, String, some, List, [], ◌∷◌}
use opentelemetry_demo_mb3r.Proto.{PlaceOrderRequest}

pub data FieldValue : Type 0 where
  number : ℤ → FieldValue
  typed : String → FieldValue

pub record FormData : Type 0 where
  pub email : String
  pub street_address : String
  pub city : String
  pub state : String
  pub country : String
  pub zip_code : String
  pub credit_card_number : String
  pub credit_card_cvv : FieldValue
  pub credit_card_expiration_year : FieldValue
  pub credit_card_expiration_month : FieldValue

-- The names of the inputs.
pub data Field : Type 0 where
  email street_address city state country zip_code credit_card_number credit_card_cvv
        credit_card_expiration_year credit_card_expiration_month :
      Field

abbrev pub initial_form : FormData
initial_form = record {
  email = "someone@example.com";
  street_address = "1600 Amphitheatre Parkway";
  city = "Mountain View";
  state = "CA";
  country = "United States";
  zip_code = "94043";
  credit_card_number = "4432-8015-6152-0454";
  credit_card_cvv = number (pos 672);
  credit_card_expiration_year = number (pos 2030);
  credit_card_expiration_month = number (pos 1);
}

-- `{ ...formData, [e.target.name]: e.target.value }`.
unfoldable pub handle_change : Field → String → FormData → FormData
handle_change Field.email value form = record form { email = value }
handle_change Field.street_address value form = record form { street_address = value }
handle_change Field.city value form = record form { city = value }
handle_change Field.state value form = record form { state = value }
handle_change Field.country value form = record form { country = value }
handle_change Field.zip_code value form = record form { zip_code = value }
handle_change Field.credit_card_number value form = record form { credit_card_number = value }
handle_change Field.credit_card_cvv value form = record form { credit_card_cvv = typed value }
handle_change Field.credit_card_expiration_year value form = record form {
  credit_card_expiration_year = typed value;
}
handle_change Field.credit_card_expiration_month value form = record form {
  credit_card_expiration_month = typed value;
}

-- The changes that the visitor makes, in their order.
unfoldable pub fill : List (Field × String) → FormData → FormData
unfolding handle_change
fill [] form = form
fill ((field, value) ∷ changes) form = fill changes (handle_change field value form)

abbrev pub text_of : FieldValue → String
text_of (number n) = ""
text_of (typed value) = value

abbrev pub number_of : (String → ℤ) → FieldValue → ℤ
number_of int32_of (number n) = n
number_of int32_of (typed value) = int32_of value

-- `onPlaceOrder` of the cart page, up to the call of `placeOrder`.
unfoldable pub order_of : (String → ℤ) → String → String → FormData → PlaceOrderRequest
order_of int32_of user_id selected_currency form = record {
  user_id = user_id;
  user_currency = selected_currency;
  email = form.email;
  address = some (record {
    street_address = form.street_address;
    city = form.city;
    state = form.state;
    country = form.country;
    zip_code = form.zip_code;
  });
  credit_card = some (record {
    credit_card_number = form.credit_card_number;
    credit_card_cvv = number_of int32_of form.credit_card_cvv;
    credit_card_expiration_year = number_of int32_of form.credit_card_expiration_year;
    credit_card_expiration_month = number_of int32_of form.credit_card_expiration_month;
  });
}
