-- ===== src/Wire/Reading.antt =====
-- What the loop of a `decode` makes of the bytes that an `encode` wrote.
use mathlib.Core.List.{append-nil, append_assoc}
use opentelemetry_demo_mb3r.Prelude.{
  ℕ, zero, suc, ◌-◌, ◌^◌, ◌≤◌, ◌<◌, ℤ, pos, negsuc, String, ◌≡◌, sym, ap, subst, ◌∙◌, true, false,
  Option, some, List, [], ◌∷◌, ◌++◌, length, length-append, ltb, leb, ◌==◌, eq_iff, arith,
  Bool-cases, inl, inr,
}
use opentelemetry_demo_mb3r.Wire.{
  Bytes, IsInt32, IsSafe, max_safe_integer, Wire, Step, read, into, long_to_number, to_number,
  is_zero, run_loop, decode_loop, decode_all, decode_nested, put_string, put_int32, put_int64,
  put_strings,
}

pub ltb-true : (a b : ℕ) → a < b → ltb a b ≡ true
ltb-true a b h = ground arith

ltb_irrefl : (a : ℕ) → ltb a a ≡ false
ltb_irrefl a = ground arith

leb-true : (a b : ℕ) → a ≤ b → leb a b ≡ true
leb-true a b h = ground arith

ltb-false : (a b : ℕ) → b ≤ a → ltb a b ≡ false
ltb-false a b h = ground arith

long_to_number-IsSafe : (n : ℤ) → IsSafe n → long_to_number n ≡ some n
unfolding long_to_number
long_to_number-IsSafe (pos n) h = rw (ltb-false max_safe_integer n h)
long_to_number-IsSafe (negsuc n) h = rw (ltb-false max_safe_integer (suc n) h)

module _ (w : Wire) {M : Type 0} (read_field : ℕ → M → Bytes → Step M) where
  -- With fuel for a round more than there are bytes, the loop that ends `behind` bytes before the
  -- end of the input gives `m` and the bytes `rest`.
  abbrev pub Reads : ℕ → M → Bytes → Option (M × Bytes) → Type 0
  Reads behind m bs r =
      (fuel : ℕ) → length bs < fuel → decode_loop w read_field fuel (some behind) m bs ≡ r

  -- From the message `m`, the bytes `c` bring the loop to the message `m'`, whatever follows.
  pub record Takes (c : Bytes) (m m' : M) : Type 0 where
    pub on :
        (tail : Bytes) (behind : ℕ) (r : Option (M × Bytes))
        → behind ≤ length tail
        → Reads behind m' tail r
        → Reads behind m (c ++ tail) r

  Reads-end : (m : M) (rest : Bytes) → Reads (length rest) m rest (some (m, rest))
  unfolding decode_loop
  Reads-end m rest zero h = absurd (omega arith)
  Reads-end m rest (suc fuel) h = rw (decode_loop, run_loop, ltb_irrefl (length rest))

  Reads-field :
      (tag : ℕ) (body tail : Bytes) (m m' : M) (behind : ℕ) (r : Option (M × Bytes))
      → tag < 2 ^ 32
      → behind ≤ length tail
      → length tail ≤ length body
      → read_field tag m body ≡ read m' tail
      → Reads behind m' tail r
      → Reads behind m (w.write_uint32 tag ++ body) r
  unfolding decode_loop
  Reads-field tag body tail m m' behind r small b shorter h rest zero f = absurd (omega arith)
  Reads-field tag body tail m m' behind r small b shorter h rest (suc fuel) f =
      let long = w.uint32_long tag in
      let size = length-append (w.write_uint32 tag) body in
      rw
        (
          decode_loop,
          run_loop,
          ltb-true behind (length (w.write_uint32 tag ++ body)) (omega arith),
          w.uint32_back tag body small,
          h,
        )
        (rest fuel (omega arith))

  pub Takes-nothing : (m : M) → Takes [] m m
  Takes-nothing m = record { on = λ tail behind r b h. h }

  pub Takes-then :
      {c d : Bytes} {m m' m'' : M} → Takes c m m' → Takes d m' m'' → Takes (c ++ d) m m''
  Takes-then {c} {d} first second = record {
    on = λ tail behind r b h. rw (append_assoc c d tail) (
        first.on (d ++ tail) behind r (let size = length-append d tail in omega arith)
          (second.on tail behind r b h));
  }

  -- A field whose value is read back after its tag.
  pub Takes-value :
      {V : Type 0} (tag : ℕ) (written : Bytes) (v : V) (read_value : Bytes → Option (V × Bytes))
      (m : M) (set : V → M)
      → tag < 2 ^ 32
      → ((bs : Bytes) → read_field tag m bs ≡ into set (read_value bs))
      → ((rest : Bytes) → read_value (written ++ rest) ≡ some (v, rest))
      → Takes (w.write_uint32 tag ++ written) m (set v)
  Takes-value tag written v read_value m set small case back = record {
    on = λ tail behind r b h.
        let size = length-append written tail in
        rw (append_assoc (w.write_uint32 tag) written tail) (
          Reads-field tag (written ++ tail) tail m (set v) behind r small b (omega arith)
            (case (written ++ tail) ∙ ap (into set) (back tail)) h);
  }

  pub Takes-string :
      (tag : ℕ) (set : String → M) (s : String)
      → tag < 2 ^ 32
      → ((bs : Bytes) → read_field tag (set "") bs ≡ into set (w.read_string bs))
      → Takes (put_string w tag s) (set "") (set s)
  Takes-string tag set s small case = elim (Bool-cases (s == "")) [
    | inl e ↦
        rw e (
          subst (λ v. Takes [] (set "") (set v)) (sym ((eq_iff s "").0 e)) (Takes-nothing (set "")))
    | inr e ↦ rw e (
        Takes-value tag (w.write_string s) s w.read_string (set "") set small case
          (w.string_back s))
  ]

  is_zero-true : (n : ℤ) → is_zero n ≡ true → n ≡ pos 0
  is_zero-true (pos n) e = ap pos (ground arith)
  is_zero-true (negsuc n) e = cc

  pub Takes-int32 :
      (tag : ℕ) (set : ℤ → M) (n : ℤ)
      → tag < 2 ^ 32
      → IsInt32 n
      → ((bs : Bytes) → read_field tag (set (pos 0)) bs ≡ into set (w.read_int32 bs))
      → Takes (put_int32 w tag n) (set (pos 0)) (set n)
  Takes-int32 tag set n small fits case = elim (Bool-cases (is_zero n)) [
    | inl e ↦ rw e (
        subst (λ v. Takes [] (set (pos 0)) (set v)) (sym (is_zero-true n e))
          (Takes-nothing (set (pos 0))))
    | inr e ↦ rw e (
        Takes-value tag (w.write_int32 n) n w.read_int32 (set (pos 0)) set small case
          (λ rest. w.int32_back n rest fits))
  ]

  pub Takes-int64 :
      (tag : ℕ) (set : ℤ → M) (n : ℤ)
      → tag < 2 ^ 32
      → IsSafe n
      → ((bs : Bytes) → read_field tag (set (pos 0)) bs ≡ into set (to_number (w.read_int64 bs)))
      → Takes (put_int64 w tag n) (set (pos 0)) (set n)
  Takes-int64 tag set n small fits case = elim (Bool-cases (is_zero n)) [
    | inl e ↦ rw e (
        subst (λ v. Takes [] (set (pos 0)) (set v)) (sym (is_zero-true n e))
          (Takes-nothing (set (pos 0))))
    | inr e ↦ rw e (
        Takes-value tag (w.write_int64 n) n (λ bs. to_number (w.read_int64 bs)) (set (pos 0)) set
          small case
          (λ rest. rw (w.int64_back n rest fits, to_number, long_to_number-IsSafe n fits)))
  ]

  pub Takes-strings :
      (tag : ℕ) (set : List String → M) (acc ss : List String)
      → tag < 2 ^ 32
      → ((before : List String) (bs : Bytes)
          → read_field tag (set before) bs ≡ into (λ s. set (before ++ s ∷ [])) (w.read_string bs))
      → Takes (put_strings w tag ss) (set acc) (set (acc ++ ss))
  Takes-strings tag set acc [] small case = rw (append-nil acc) (Takes-nothing (set acc))
  Takes-strings tag set acc (s ∷ ss) small case =
      Takes-then
        (Takes-value tag (w.write_string s) s w.read_string (set acc) (λ v. set (acc ++ v ∷ []))
          small (case acc) (w.string_back s))
        (subst (λ l. Takes (put_strings w tag ss) (set (acc ++ s ∷ [])) (set l))
          (append_assoc acc (s ∷ []) ss) (Takes-strings tag set (acc ++ s ∷ []) ss small case))

  -- The whole input of a `decode` is what an `encode` wrote.
  pub decode_all-Takes :
      {c : Bytes} {base m : M} → Takes c base m → decode_all w read_field base c ≡ some m
  unfolding decode_all
  decode_all-Takes {c} {base} {m} takes = rw (
    decode_all,
    subst (λ bs. decode_loop w read_field (suc (length bs)) (some 0) base bs ≡ some (m, []))
        (append-nil c)
        (takes.on [] 0 (some (m, [])) (omega arith) (Reads-end m []) (suc (length (c ++ [])))
          (omega arith)),
  )

  -- A message that `join` wrote is read back, with the bytes behind it.
  pub decode_nested-Takes :
      {c : Bytes} {base m : M} (rest : Bytes)
      → Takes c base m
      → length c < 2 ^ 32
      → decode_nested w read_field base (w.join c ++ rest) ≡ some (m, rest)
  unfolding decode_nested
  decode_nested-Takes {c} {base} {m} rest takes small =
      let size = length-append c rest in
      rw
        (
          w.join_law c,
          append_assoc (w.write_uint32 (length c)) c rest,
          decode_nested,
          w.uint32_back (length c) (c ++ rest) small,
          leb-true (length c) (length (c ++ rest)) (omega arith),
        )
        (takes.on rest (length (c ++ rest) - length c) (some (m, rest)) (omega arith)
          (subst (λ k. Reads k m rest (some (m, rest))) (omega arith) (Reads-end m rest))
          (suc (length (c ++ rest))) (omega arith))
