-- ===== src/Json.antt =====
-- Values of JSON, and the fields that `fromJSON` and `toJSON` of src/frontend/protos/demo.ts read and
-- write. Numbers are integers, for the fields of the messages are; `Conversions` has JavaScript's
-- `String` and `Number` of values of other kinds as a parameter. `none` stands for an exception, and
-- for a number that is no integer.
pub mod Fields
pub mod Flag
pub mod Confirmation
pub mod Charge
pub mod Search
pub mod Quote
pub mod Ad
pub mod Checkout
pub mod Order
pub mod Assistant
pub mod Review
pub mod Product
pub mod Money
pub mod Recommendation
pub mod Cart
use opentelemetry_demo_mb3r.Prelude.{
  ℤ, pos, String, ◌≡◌, Bool, true, false, not, Option, none, some, List, [], ◌∷◌, if◌then◌else◌,
  ◌==◌,
}
use opentelemetry_demo_mb3r.Wire.{is_zero}

mutual
  pub data Json : Type 0 where
    null : Json
    bool : Bool → Json
    number : ℤ → Json
    string : String → Json
    array : JsonItems → Json
    object : JsonFields → Json

  pub data JsonItems : Type 0 where
    nil : JsonItems
    cons : Json → JsonItems → JsonItems

  pub data JsonFields : Type 0 where
    end : JsonFields
    field : String → Json → JsonFields → JsonFields

-- `globalThis.String` and `globalThis.Number` of a value.
pub record Conversions : Type 0 where
  pub to_text : Json → String
  pub to_number : Json → Option ℤ
  pub text_law : (s : String) → to_text (string s) ≡ s
  pub number_law : (n : ℤ) → to_number (number n) ≡ some n

infixl 5 ◌>>=◌
abbrev pub ◌>>=◌ : {A : Type 0} {B : Type 0} → Option A → (A → Option B) → Option B
none >>= next = none
some a >>= next = next a

-- The first of the two that there is.
abbrev pub or_else : {A : Type 0} → Option A → Option A → Option A
or_else first none = first
or_else none (some a) = some a
or_else (some a) (some _) = some a

-- `isSet(object.key)`, with the value.
abbrev pub when_set : Json → Option Json
when_set null = none
when_set j = some j

abbrev pub find : String → JsonFields → Option Json
find key end = none
find key (field k j fs) =
    let rest = find key fs in if k == key then or_else (when_set j) rest else rest

abbrev pub get : Json → String → Option Json
get (object fs) key = find key fs
get _ key = none

-- The name of a field, and its name in the .proto file if that is another one.
abbrev pub first_set : List String → (String → Option Json) → Option Json
first_set [] look = none
first_set (key ∷ keys) look = or_else (look key) (first_set keys look)

-- `globalThis.Array.isArray`, with the elements.
abbrev pub when_array : Option Json → Option JsonItems
when_array (some (array items)) = some items
when_array _ = none

abbrev pub first_array : List String → (String → Option Json) → Option JsonItems
first_array [] look = none
first_array (key ∷ keys) look = or_else (when_array (look key)) (first_array keys look)

-- A field of an object that is `null` cannot be read.
abbrev pub with_fields : {M : Type 0} → ((String → Option Json) → Option M) → Json → Option M
with_fields read null = none
with_fields read j = read (get j)

abbrev pub prepend : {A : Type 0} → Option A → Option (List A) → Option (List A)
prepend (some a) (some rest) = some (a ∷ rest)
prepend _ _ = none

abbrev pub read_items : {M : Type 0} → (Json → Option M) → JsonItems → Option (List M)
read_items from nil = some []
read_items from (cons j items) = prepend (from j) (read_items from items)

abbrev pub map_some : {A : Type 0} → Option A → Option (Option A)
map_some none = none
map_some (some a) = some (some a)

module _ (c : Conversions) where
  abbrev pub as_text : Option Json → String
  as_text none = ""
  as_text (some j) = c.to_text j

  abbrev pub as_number : Option Json → Option ℤ
  as_number none = some (pos 0)
  as_number (some j) = c.to_number j

  abbrev pub texts_in : JsonItems → List String
  texts_in nil = []
  texts_in (cons j items) = c.to_text j ∷ texts_in items

  abbrev pub as_texts : Option JsonItems → List String
  as_texts none = []
  as_texts (some items) = texts_in items

-- `globalThis.Boolean`.
abbrev pub to_flag : Json → Bool
to_flag null = false
to_flag (bool b) = b
to_flag (number n) = not (is_zero n)
to_flag (string s) = not (s == "")
to_flag (array _) = true
to_flag (object _) = true

abbrev pub as_flag : Option Json → Bool
as_flag none = false
as_flag (some j) = to_flag j

abbrev pub as_message : {M : Type 0} → (Json → Option M) → Option Json → Option (Option M)
as_message from none = some none
as_message from (some j) = map_some (from j)

abbrev pub as_messages : {M : Type 0} → (Json → Option M) → Option JsonItems → Option (List M)
as_messages from none = some []
as_messages from (some items) = read_items from items

-- What `toJSON` sets a field to, if it does.
abbrev pub text_value : String → Option Json
text_value s = if s == "" then none else some (string s)

abbrev pub number_value : ℤ → Option Json
number_value n = if is_zero n then none else some (number n)

abbrev pub flag_value : Bool → Option Json
flag_value false = none
flag_value true = some (bool true)

abbrev pub message_value : {M : Type 0} → (M → Json) → Option M → Option Json
message_value to none = none
message_value to (some m) = some (to m)

abbrev pub text_items : List String → JsonItems
text_items [] = nil
text_items (s ∷ ss) = cons (string s) (text_items ss)

abbrev pub texts_value : List String → Option Json
texts_value [] = none
texts_value (s ∷ ss) = some (array (text_items (s ∷ ss)))

abbrev pub message_items : {M : Type 0} → (M → Json) → List M → JsonItems
message_items to [] = nil
message_items to (m ∷ ms) = cons (to m) (message_items to ms)

abbrev pub messages_value : {M : Type 0} → (M → Json) → List M → Option Json
messages_value to [] = none
messages_value to (m ∷ ms) = some (array (message_items to (m ∷ ms)))

abbrev pub set : String → Option Json → JsonFields → JsonFields
set key none fs = fs
set key (some j) fs = field key j fs

-- The fields that are set, in their order.
abbrev pub fields_of : List (String × Option Json) → JsonFields
fields_of [] = end
fields_of ((key, value) ∷ values) = set key value (fields_of values)
