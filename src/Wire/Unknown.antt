-- ===== src/Wire/Unknown.antt =====
-- Fields that a `decode` has no case for.
use mathlib.Core.List.{append_assoc}
use opentelemetry_demo_mb3r.Prelude.{
  ℕ, zero, suc, ◌%◌, ◌^◌, ◌≤◌, ◌<◌, ◌≡◌, ◌*◌, false, Option, some, List, [], ◌∷◌, ◌++◌, All, length,
  length-append, arith,
}
use opentelemetry_demo_mb3r.Wire.{Bytes, Wire, Step, other, is_end_tag, run_loop, decode_loop}
use opentelemetry_demo_mb3r.Wire.Reading.{Takes, Takes-nothing, Takes-then, Reads, ltb-true}

-- A tag, and what was written behind it.
abbrev pub Field : Type 0
Field = ℕ × Bytes

module _ (w : Wire) where
  abbrev pub put_fields : List Field → Bytes
  put_fields [] = []
  put_fields ((tag, body) ∷ fields) = (w.write_uint32 tag ++ body) ++ put_fields fields

  -- The reader skips it, and its number is `n` or higher.
  abbrev pub IsSkipped : ℕ → Field → Type 0
  IsSkipped n (tag, body) =
      (tag < 2 ^ 32)
      × (n * 8 ≤ tag)
      × (is_end_tag tag ≡ false)
      × ((rest : Bytes) → w.skip (tag % 8) (body ++ rest) ≡ some rest)

  module _ {M : Type 0} (read_field : ℕ → M → Bytes → Step M) (n : ℕ)
      (unknown : (tag : ℕ) (m : M) (bs : Bytes) → n * 8 ≤ tag → read_field tag m bs ≡ other) where
    Reads-skipped :
        (tag : ℕ) (body tail : Bytes) (m : M) (behind : ℕ) (r : Option (M × Bytes))
        → IsSkipped n (tag, body)
        → behind ≤ length tail
        → Reads w read_field behind m tail r
        → Reads w read_field behind m (w.write_uint32 tag ++ (body ++ tail)) r
    unfolding decode_loop
    Reads-skipped tag body tail m behind r skips b rest zero f = absurd (omega arith)
    Reads-skipped tag body tail m behind r (small, high, goes_on, skipped) b rest (suc fuel) f =
        let long = w.uint32_long tag in
        let size = length-append (w.write_uint32 tag) (body ++ tail) in
        let size' = length-append body tail in
        rw
          (
            decode_loop,
            run_loop,
            ltb-true behind (length (w.write_uint32 tag ++ (body ++ tail))) (omega arith),
            w.uint32_back tag (body ++ tail) small,
            unknown tag m (body ++ tail) high,
            goes_on,
            skipped tail,
          )
          (rest fuel (omega arith))

    Takes-field :
        (m : M) (field : Field)
        → IsSkipped n field
        → Takes w read_field (w.write_uint32 field.0 ++ field.1) m m
    Takes-field m (tag, body) skips = record {
      on = λ tail behind r b h.
          rw (append_assoc (w.write_uint32 tag) body tail)
            (Reads-skipped tag body tail m behind r skips b h);
    }

    pub Takes-put_fields :
        (m : M) (fields : List Field)
        → All (IsSkipped n) fields
        → Takes w read_field (put_fields fields) m m
    Takes-put_fields m [] h = Takes-nothing w read_field m
    Takes-put_fields m (field ∷ fields) h =
        Takes-then w read_field (Takes-field m field h.0) (Takes-put_fields m fields h.1)
