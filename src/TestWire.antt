-- ===== src/TestWire.antt =====
-- Data for the tests: a wire that writes a number for a number and for each character of a text.
use Prim.Native.Char.{Char, char, code, IsScalar}
use Prim.Native.Nat.{compare, Ordering}
use text.Mathlib.TextEquality.{Char-path}
use opentelemetry_demo_mb3r.Prelude.{
  ℕ, zero, suc, ◌≤◌, ◌<◌, ℤ, pos, negsuc, String, ◌≡◌, refl, ap, subst, ◌∙◌, Option, none, some,
  List, [], ◌∷◌, ◌++◌, length, arith, inl, inr, ◌⊎◌,
}
use opentelemetry_demo_mb3r.Wire.{Bytes, Wire}

pub IsScalar-low : (n : ℕ) → compare n 55296 ≡ Ordering.lt → IsScalar n
IsScalar-low n e = rw e tt

abbrev pub lt_or_not : (o : Ordering) → (o ≡ Ordering.lt) ⊎ ((o ≡ Ordering.eq) ⊎ (o ≡ Ordering.gt))
lt_or_not Ordering.lt = inl refl
lt_or_not Ordering.eq = inr (inl refl)
lt_or_not Ordering.gt = inr (inr refl)

pub IsScalar-high :
    (n : ℕ)
    → (compare n 55296 ≡ Ordering.eq) ⊎ (compare n 55296 ≡ Ordering.gt)
    → compare 57343 n ≡ Ordering.lt
    → compare n 1114112 ≡ Ordering.lt
    → IsScalar n
IsScalar-high n (inl e) a b = rw (e, a, b) tt
IsScalar-high n (inr e) a b = rw (e, a, b) tt

surrogate :
    (n : ℕ)
    → (compare n 55296 ≡ Ordering.eq) ⊎ (compare n 55296 ≡ Ordering.gt)
    → (compare 57343 n ≡ Ordering.eq) ⊎ (compare 57343 n ≡ Ordering.gt)
    → IsScalar n ≡ ⊥
surrogate n (inl e) (inl a) = rw (e, a) refl
surrogate n (inl e) (inr a) = rw (e, a) refl
surrogate n (inr e) (inl a) = rw (e, a) refl
surrogate n (inr e) (inr a) = rw (e, a) refl

too_high :
    (n : ℕ)
    → (compare n 55296 ≡ Ordering.eq) ⊎ (compare n 55296 ≡ Ordering.gt)
    → compare 57343 n ≡ Ordering.lt
    → (compare n 1114112 ≡ Ordering.eq) ⊎ (compare n 1114112 ≡ Ordering.gt)
    → IsScalar n ≡ ⊥
too_high n (inl e) a (inl b) = rw (e, a, b) refl
too_high n (inl e) a (inr b) = rw (e, a, b) refl
too_high n (inr e) a (inl b) = rw (e, a, b) refl
too_high n (inr e) a (inr b) = rw (e, a, b) refl

abbrev pub IsOrder : Ordering → Type 0
IsOrder o = (o ≡ Ordering.lt) ⊎ ((o ≡ Ordering.eq) ⊎ (o ≡ Ordering.gt))

abbrev pub char_with :
    (n : ℕ)
    → IsOrder (compare n 55296)
    → IsOrder (compare 57343 n)
    → IsOrder (compare n 1114112)
    → Option Char
char_with n (inl e) _ _ = some (char n (IsScalar-low n e))
char_with n (inr e) (inl a) (inl b) = some (char n (IsScalar-high n e a b))
char_with n (inr e) (inl a) (inr b) = none
char_with n (inr e) (inr a) _ = none

char_with_back :
    (n : ℕ) (p : IsScalar n) (a : IsOrder (compare n 55296)) (b : IsOrder (compare 57343 n))
    (c : IsOrder (compare n 1114112))
    → char_with n a b c ≡ some (char n p)
char_with_back n p (inl e) _ _ = ap some (Char-path _ _ refl)
char_with_back n p (inr e) (inl a) (inl b) = ap some (Char-path _ _ refl)
char_with_back n p (inr e) (inl a) (inr b) = absurd (subst (λ X. X) (too_high n e a b) p)
char_with_back n p (inr e) (inr a) _ = absurd (subst (λ X. X) (surrogate n e a) p)

abbrev pub char_of : ℕ → Option Char
char_of n =
    char_with n (lt_or_not (compare n 55296)) (lt_or_not (compare 57343 n))
      (lt_or_not (compare n 1114112))

char_of-code : (c : Char) → char_of (code c) ≡ some c
char_of-code (char n p) = char_with_back n p _ _ _

abbrev pub codes : String → List ℕ
codes String.[] = []
codes (String.◌∷◌ c s) = code c ∷ codes s

abbrev pub add_char : Option Char → Option (String × Bytes) → Option (String × Bytes)
add_char none _ = none
add_char (some c) none = none
add_char (some c) (some (s, rest)) = some (String.◌∷◌ c s, rest)

abbrev pub read_codes : ℕ → Bytes → Option (String × Bytes)
read_codes zero bs = some ("", bs)
read_codes (suc k) [] = none
read_codes (suc k) (b ∷ bs) = add_char (char_of b) (read_codes k bs)

pub read_codes-codes :
    (s : String) (rest : Bytes) → read_codes (length (codes s)) (codes s ++ rest) ≡ some (s, rest)
read_codes-codes String.[] rest = refl
read_codes-codes (String.◌∷◌ c s) rest =
    ap (λ o. add_char o (read_codes (length (codes s)) (codes s ++ rest))) (char_of-code c)
    ∙ ap (add_char (some c)) (read_codes-codes s rest)

add_char_takes :
    (c : Option Char) (o : Option (String × Bytes)) (s : String) (rest : Bytes)
    → add_char c o ≡ some (s, rest)
    → (t : String) × (o ≡ some (t, rest))
add_char_takes none o s rest h = absurd (cc)
add_char_takes (some c) none s rest h = absurd (cc)
add_char_takes (some c) (some (t, bs)) s rest h = (t, cc)

read_codes_takes :
    (k : ℕ) (bs : Bytes) (s : String) (rest : Bytes)
    → read_codes k bs ≡ some (s, rest)
    → length rest ≤ length bs
read_codes_takes zero bs s rest h =
    let same : bs ≡ rest = cc in subst (λ l. length l ≤ length bs) same (omega arith)
read_codes_takes (suc k) [] s rest h = absurd (cc)
read_codes_takes (suc k) (b ∷ bs) s rest h =
    let (t, e) = add_char_takes (char_of b) (read_codes k bs) s rest h in
    let fewer = read_codes_takes k bs t rest e in omega arith

abbrev pub read_one : Bytes → Option (ℕ × Bytes)
read_one [] = none
read_one (b ∷ bs) = some (b, bs)

abbrev pub read_text : Bytes → Option (String × Bytes)
read_text [] = none
read_text (n ∷ bs) = read_codes n bs

abbrev pub write_int : ℤ → Bytes
write_int (pos n) = 0 ∷ n ∷ []
write_int (negsuc n) = 1 ∷ n ∷ []

abbrev pub read_int : Bytes → Option (ℤ × Bytes)
read_int [] = none
read_int (_ ∷ []) = none
read_int (zero ∷ (n ∷ bs)) = some (pos n, bs)
read_int (suc _ ∷ (n ∷ bs)) = some (negsuc n, bs)

pub read_int_back : (n : ℤ) (rest : Bytes) → read_int (write_int n ++ rest) ≡ some (n, rest)
read_int_back (pos n) rest = refl
read_int_back (negsuc n) rest = refl

pub read_one_takes :
    (bs : Bytes) (n : ℕ) (rest : Bytes) → read_one bs ≡ some (n, rest) → length rest < length bs
read_one_takes [] n rest h = absurd (cc)
read_one_takes (b ∷ bs) n rest h =
    let same : bs ≡ rest = cc in subst (λ l. length l < suc (length bs)) same (omega arith)

pub read_text_takes :
    (bs : Bytes) (s : String) (rest : Bytes)
    → read_text bs ≡ some (s, rest)
    → length rest ≤ length bs
read_text_takes [] s rest h = absurd (cc)
read_text_takes (n ∷ bs) s rest h = let fewer = read_codes_takes n bs s rest h in omega arith

pub read_int_takes :
    (bs : Bytes) (n : ℤ) (rest : Bytes) → read_int bs ≡ some (n, rest) → length rest ≤ length bs
read_int_takes [] n rest h = absurd (cc)
read_int_takes (_ ∷ []) n rest h = absurd (cc)
read_int_takes (zero ∷ (k ∷ bs)) n rest h =
    let same : bs ≡ rest = cc in subst (λ l. length l ≤ suc (suc (length bs))) same (omega arith)
read_int_takes (suc _ ∷ (k ∷ bs)) n rest h =
    let same : bs ≡ rest = cc in subst (λ l. length l ≤ suc (suc (length bs))) same (omega arith)

abbrev pub skip_one : Bytes → Option Bytes
skip_one [] = none
skip_one (b ∷ bs) = some bs

pub skip_one_takes : (bs rest : Bytes) → skip_one bs ≡ some rest → length rest ≤ length bs
skip_one_takes [] rest h = absurd (cc)
skip_one_takes (b ∷ bs) rest h =
    let same : bs ≡ rest = cc in subst (λ l. length l ≤ suc (length bs)) same (omega arith)

abbrev pub test_wire : Wire
test_wire = record {
  write_uint32 = λ n. n ∷ [];
  write_string = λ s. length (codes s) ∷ codes s;
  write_int32 = write_int;
  write_int64 = write_int;
  join = λ bs. length bs ∷ bs;
  read_uint32 = read_one;
  read_string = read_text;
  read_int32 = read_int;
  read_int64 = read_int;
  skip = λ kind bs. skip_one bs;
  uint32_back = λ n rest small. refl;
  uint32_takes = read_one_takes;
  string_takes = read_text_takes;
  int32_takes = read_int_takes;
  int64_takes = read_int_takes;
  skip_takes = λ kind. skip_one_takes;
  uint32_long = λ n. omega arith;
  string_back = read_codes-codes;
  int32_back = λ n rest fits. read_int_back n rest;
  int64_back = λ n rest safe. read_int_back n rest;
  join_law = λ bs. refl;
}
