-- ===== src/Wire.antt =====
-- The wire format of the messages, as src/frontend/protos/demo.ts writes and reads it. The
-- `BinaryWriter` and `BinaryReader` of @bufbuild/protobuf/wire are the parameter `Wire`; the loop of
-- every `decode` is `decode_loop`. A tag determines its `tag >>> 3`, so that the cases of the switch
-- test the tag alone.
pub mod Reading
pub mod Nesting
pub mod Fuel
pub mod Unknown
pub mod Cart
pub mod Recommendation
pub mod Money
pub mod Product
pub mod Review
pub mod Assistant
pub mod Order
pub mod Checkout
pub mod Quote
pub mod Search
pub mod Charge
pub mod Confirmation
pub mod Ad
use opentelemetry_demo_mb3r.Prelude.{
  ℕ, zero, suc, ◌+◌, ◌-◌, ◌%◌, ◌^◌, ◌≤◌, ◌<◌, ℤ, pos, negsuc, ◌≤ℤ◌, String, ◌≡◌, Bool, true, false,
  ◌||◌, Option, none, some, List, [], ◌∷◌, ◌++◌, length, ltb, leb, eqb, if◌then◌else◌, ◌==◌,
}

abbrev pub Bytes : Type 0
Bytes = List ℕ

abbrev pub IsInt32 : ℤ → Type 0
IsInt32 n = (negsuc (2 ^ 31 - 1) ≤ℤ n) × (n ≤ℤ pos (2 ^ 31 - 1))

abbrev pub max_safe_integer : ℕ
max_safe_integer = 2 ^ 53 - 1

-- `Number.isSafeInteger`.
abbrev pub IsSafe : ℤ → Type 0
IsSafe (pos n) = n ≤ max_safe_integer
IsSafe (negsuc n) = suc n ≤ max_safe_integer

-- What a writer appends for a value; `join` appends what was written since `fork`. A reader gives
-- the value and the bytes behind it, or throws. A value that a writer refuses with an exception is
-- none that the laws speak of.
pub record Wire : Type 0 where
  pub write_uint32 : ℕ → Bytes
  pub write_string : String → Bytes
  pub write_int32 : ℤ → Bytes
  pub write_int64 : ℤ → Bytes
  pub join : Bytes → Bytes
  pub read_uint32 : Bytes → Option (ℕ × Bytes)
  pub read_string : Bytes → Option (String × Bytes)
  pub read_int32 : Bytes → Option (ℤ × Bytes)
  pub read_int64 : Bytes → Option (ℤ × Bytes)
  pub skip : ℕ → Bytes → Option Bytes
  pub uint32_back :
      (n : ℕ) (rest : Bytes) → n < 2 ^ 32 → read_uint32 (write_uint32 n ++ rest) ≡ some (n, rest)
  pub uint32_takes :
      (bs : Bytes) (n : ℕ) (rest : Bytes)
      → read_uint32 bs ≡ some (n, rest)
      → length rest < length bs
  pub string_takes :
      (bs : Bytes) (s : String) (rest : Bytes)
      → read_string bs ≡ some (s, rest)
      → length rest ≤ length bs
  pub int32_takes :
      (bs : Bytes) (n : ℤ) (rest : Bytes) → read_int32 bs ≡ some (n, rest) → length rest ≤ length bs
  pub int64_takes :
      (bs : Bytes) (n : ℤ) (rest : Bytes) → read_int64 bs ≡ some (n, rest) → length rest ≤ length bs
  pub skip_takes : (kind : ℕ) (bs rest : Bytes) → skip kind bs ≡ some rest → length rest ≤ length bs
  pub uint32_long : (n : ℕ) → 0 < length (write_uint32 n)
  pub string_back :
      (s : String) (rest : Bytes) → read_string (write_string s ++ rest) ≡ some (s, rest)
  pub int32_back :
      (n : ℤ) (rest : Bytes) → IsInt32 n → read_int32 (write_int32 n ++ rest) ≡ some (n, rest)
  pub int64_back :
      (n : ℤ) (rest : Bytes) → IsSafe n → read_int64 (write_int64 n ++ rest) ≡ some (n, rest)
  pub join_law : (bs : Bytes) → join bs ≡ write_uint32 (length bs) ++ bs

-- What the switch of a `decode` does with a tag: no case for it, an exception, or a value read.
pub data Step (M : Type 0) : Type 0 where
  other threw : Step M
  read : M → Bytes → Step M

abbrev pub into : {V M : Type 0} → (V → M) → Option (V × Bytes) → Step M
into set none = threw
into set (some (v, rest)) = read (set v) rest

-- `reader.pos < end`, by the bytes that remain behind `end`; `none` is an `end` behind the input.
abbrev pub is_before : Option ℕ → Bytes → Bool
is_before none bs = true
is_before (some behind) bs = ltb behind (length bs)

-- `reader.pos + length`.
abbrev pub end_after : ℕ → Bytes → Option ℕ
end_after len bs = if leb len (length bs) then some (length bs - len) else none

-- `(tag & 7) === 4 || tag === 0`.
abbrev pub is_end_tag : ℕ → Bool
is_end_tag tag = eqb (tag % 8) 4 || eqb tag 0

-- `longToNumber`.
unfoldable pub long_to_number : ℤ → Option ℤ
long_to_number (pos n) = if ltb max_safe_integer n then none else some (pos n)
long_to_number (negsuc n) = if ltb max_safe_integer (suc n) then none else some (negsuc n)

abbrev pub with_rest : Option ℤ → Bytes → Option (ℤ × Bytes)
with_rest none rest = none
with_rest (some n) rest = some (n, rest)

-- `longToNumber(reader.int64())`.
abbrev pub to_number : Option (ℤ × Bytes) → Option (ℤ × Bytes)
to_number none = none
to_number (some (n, rest)) = with_rest (long_to_number n) rest

abbrev pub is_zero : ℤ → Bool
is_zero (pos n) = eqb n 0
is_zero (negsuc n) = false

-- What a loop comes to: it has more rounds than it was allowed, an exception, or a message and the
-- bytes behind it.
pub data Loop (M : Type 0) : Type 0 where
  goes_on exception : Loop M
  ended : M → Bytes → Loop M

abbrev pub result : {M : Type 0} → Loop M → Option (M × Bytes)
result goes_on = none
result exception = none
result (ended m bs) = some (m, bs)

module _ (w : Wire) where
  -- The loop of a `decode`, up to a number of rounds.
  unfoldable pub run_loop :
      {M : Type 0} → (ℕ → M → Bytes → Step M) → ℕ → Option ℕ → M → Bytes → Loop M
  run_loop read_field zero end m bs = goes_on
  run_loop read_field (suc fuel) end m bs = elim (is_before end bs) [
    | false ↦ ended m bs
    | true ↦ elim (w.read_uint32 bs) [
      | none ↦ exception
      | some (tag, rest) ↦ elim (read_field tag m rest) [
        | read m' rest' ↦ run_loop read_field fuel end m' rest'
        | threw ↦ exception
        | other ↦ elim (is_end_tag tag) [
          | true ↦ ended m rest
          | false ↦ elim (w.skip (tag % 8) rest) [
            | none ↦ exception
            | some rest' ↦ run_loop read_field fuel end m rest'
          ]
        ]
      ]
    ]
  ]

  -- The message that the loop gives, if it does. Each round reads a tag, so that one round more than
  -- there are bytes is enough for the loop to end.
  unfoldable pub decode_loop :
      {M : Type 0} → (ℕ → M → Bytes → Step M) → ℕ → Option ℕ → M → Bytes → Option (M × Bytes)
  unfolding run_loop
  decode_loop read_field fuel end m bs = result (run_loop read_field fuel end m bs)

  -- `decode(input)` of the bytes of a message.
  unfoldable pub decode_all : {M : Type 0} → (ℕ → M → Bytes → Step M) → M → Bytes → Option M
  unfolding decode_loop
  decode_all read_field base bs = elim (decode_loop read_field (suc (length bs)) (some 0) base bs) [
    | none ↦ none
    | some (m, rest) ↦ some m
  ]

  -- `decode(reader, reader.uint32())`, after the length was read.
  unfoldable pub decode_framed :
      {M : Type 0} → (ℕ → M → Bytes → Step M) → M → Option (ℕ × Bytes) → Option (M × Bytes)
  unfolding decode_loop
  decode_framed read_field base none = none
  decode_framed read_field base (some (len, rest)) =
      decode_loop read_field (suc (length rest)) (end_after len rest) base rest

  unfoldable pub decode_nested :
      {M : Type 0} → (ℕ → M → Bytes → Step M) → M → Bytes → Option (M × Bytes)
  unfolding decode_framed
  decode_nested read_field base bs = decode_framed read_field base (w.read_uint32 bs)

  -- `if (s !== "") writer.uint32(tag).string(s)`, and the same of numbers and messages.
  abbrev pub put_string : ℕ → String → Bytes
  put_string tag s = if s == "" then [] else w.write_uint32 tag ++ w.write_string s

  abbrev pub put_int32 : ℕ → ℤ → Bytes
  put_int32 tag n = if is_zero n then [] else w.write_uint32 tag ++ w.write_int32 n

  abbrev pub put_int64 : ℕ → ℤ → Bytes
  put_int64 tag n = if is_zero n then [] else w.write_uint32 tag ++ w.write_int64 n

  abbrev pub put_message : {M : Type 0} → (M → Bytes) → ℕ → Option M → Bytes
  put_message encode tag none = []
  put_message encode tag (some m) = w.write_uint32 tag ++ w.join (encode m)

  -- `for (const v of list) …`.
  abbrev pub put_strings : ℕ → List String → Bytes
  put_strings tag [] = []
  put_strings tag (s ∷ ss) = (w.write_uint32 tag ++ w.write_string s) ++ put_strings tag ss

  abbrev pub put_messages : {M : Type 0} → (M → Bytes) → ℕ → List M → Bytes
  put_messages encode tag [] = []
  put_messages encode tag (m ∷ ms) =
      (w.write_uint32 tag ++ w.join (encode m)) ++ put_messages encode tag ms
