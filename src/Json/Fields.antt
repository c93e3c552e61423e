-- ===== src/Json/Fields.antt =====
-- The fields of an object that `toJSON` wrote, as `fromJSON` reads them.
use opentelemetry_demo_mb3r.Prelude.{
  ℤ, pos, negsuc, String, ◌≡◌, refl, sym, ap, Bool, true, false, Option, none, some, List, [], ◌∷◌,
  if◌then◌else◌, ◌==◌, eq_iff, Bool-cases, inl, inr, fun_ext, arith,
}
use opentelemetry_demo_mb3r.Wire.{is_zero}
use opentelemetry_demo_mb3r.Json.{
  Json, null, string, number, object, array, Conversions, or_else, when_set, find, get, text_value,
  number_value, message_value, texts_value, messages_value, fields_of, as_text, as_number, as_texts,
  as_flag, flag_value, as_message, as_messages, when_array, text_items, texts_in, message_items,
  read_items,
}

abbrev pub kept : Option Json → Option Json
kept none = none
kept (some j) = when_set j

abbrev pub value_at : List (String × Option Json) → String → Option Json
value_at [] key = none
value_at ((k, value) ∷ values) key =
    let rest = value_at values key in if k == key then or_else (kept value) rest else rest

or_else-none : {A : Type 0} (o : Option A) → or_else none o ≡ o
or_else-none none = refl
or_else-none (some a) = refl

abbrev pub IsObject : Json → Type 0
IsObject (object fs) = Unit
IsObject _ = ⊥

when_set-object : (j : Json) → IsObject j → when_set j ≡ some j
when_set-object null h = absurd h
when_set-object (Json.bool _) h = absurd h
when_set-object (number _) h = absurd h
when_set-object (string _) h = absurd h
when_set-object (array _) h = absurd h
when_set-object (object _) h = refl

find-fields_of :
    (values : List (String × Option Json)) (key : String)
    → find key (fields_of values) ≡ value_at values key
find-fields_of [] key = refl
find-fields_of ((k, none) ∷ values) key = elim (Bool-cases (k == key)) [
  | inl e ↦ rw (e, or_else-none (value_at values key)) (find-fields_of values key)
  | inr e ↦ rw e (find-fields_of values key)
]
find-fields_of ((k, some j) ∷ values) key = rw (find-fields_of values key) refl

pub get-fields_of :
    (values : List (String × Option Json)) → get (object (fields_of values)) ≡ value_at values
get-fields_of values = fun_ext (λ key. find-fields_of values key)

pub as_text-text_value : (c : Conversions) (s : String) → as_text c (kept (text_value s)) ≡ s
as_text-text_value c s = elim (Bool-cases (s == "")) [
  | inl e ↦ rw e (sym ((eq_iff s "").0 e))
  | inr e ↦ rw e (c.text_law s)
]

is_zero-pos : (n : ℤ) → is_zero n ≡ true → n ≡ pos 0
is_zero-pos (pos n) e = ap pos (ground arith)
is_zero-pos (negsuc n) e = cc

pub as_number-number_value :
    (c : Conversions) (n : ℤ) → as_number c (kept (number_value n)) ≡ some n
as_number-number_value c n = elim (Bool-cases (is_zero n)) [
  | inl e ↦ rw e (ap some (sym (is_zero-pos n e)))
  | inr e ↦ rw e (c.number_law n)
]

pub as_flag-flag_value : (b : Bool) → as_flag (kept (flag_value b)) ≡ b
as_flag-flag_value true = refl
as_flag-flag_value false = refl

texts_in-text_items : (c : Conversions) (ss : List String) → texts_in c (text_items ss) ≡ ss
texts_in-text_items c [] = refl
texts_in-text_items c (s ∷ ss) = rw (c.text_law s, texts_in-text_items c ss) refl

pub as_texts-texts_value :
    (c : Conversions) (ss : List String) → as_texts c (when_array (kept (texts_value ss))) ≡ ss
as_texts-texts_value c [] = refl
as_texts-texts_value c (s ∷ ss) = texts_in-text_items c (s ∷ ss)

module _ {M : Type 0} (from : Json → Option M) (to : M → Json)
    (h : (m : M) → from (to m) ≡ some m) where
  read_items-message_items : (ms : List M) → read_items from (message_items to ms) ≡ some ms
  read_items-message_items [] = refl
  read_items-message_items (m ∷ ms) = rw (h m, read_items-message_items ms) refl

  pub as_messages-messages_value :
      (ms : List M) → as_messages from (when_array (kept (messages_value to ms))) ≡ some ms
  as_messages-messages_value [] = refl
  as_messages-messages_value (m ∷ ms) = read_items-message_items (m ∷ ms)

  pub as_message-message_value :
      ((m : M) → IsObject (to m))
      → (o : Option M) → as_message from (kept (message_value to o)) ≡ some o
  as_message-message_value objects none = refl
  as_message-message_value objects (some m) = rw (when_set-object (to m) (objects m), h m) refl
