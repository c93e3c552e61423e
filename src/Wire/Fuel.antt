-- ===== src/Wire/Fuel.antt =====
-- The rounds of the loop of a `decode`, and the bytes that its readers leave.
use mathlib.Core.Option.{some-injective}
use opentelemetry_demo_mb3r.Prelude.{
  ◌≢◌, subst, ◌⊎◌, ℕ, zero, suc, ◌%◌, ◌≤◌, ◌<◌, ℤ, ◌≡◌, refl, sym, ap, ◌∙◌, Bool, true, false,
  Option, none, some, length, arith, Bool-cases, Option-cases, inl, inr, if◌then◌else◌,
}
use opentelemetry_demo_mb3r.Wire.{
  Bytes, Wire, Step, read, other, threw, into, is_before, end_after, is_end_tag, long_to_number,
  with_rest, to_number, Loop, goes_on, exception, ended, result, run_loop, decode_loop,
  decode_framed, decode_nested,
}

-- A reader leaves no more bytes than it found.
abbrev pub IsReader : {V : Type 0} → (Bytes → Option (V × Bytes)) → Type 0
IsReader {V = V} f =
    (bs : Bytes) (v : V) (rest : Bytes) → f bs ≡ some (v, rest) → length rest ≤ length bs

-- What a case of the switch reads leaves no more bytes than it found.
abbrev pub Shrinks : {M : Type 0} → (M → Bytes → Step M) → Type 0
Shrinks {M = M} f =
    (m : M) (bs : Bytes) (m' : M) (rest : Bytes) → f m bs ≡ read m' rest → length rest ≤ length bs

pub Shrinks-other : {M : Type 0} → Shrinks {M = M} (λ m bs. other)
Shrinks-other m bs m' rest h = absurd (cc)

into-read :
    {V M : Type 0} (set : V → M) (o : Option (V × Bytes)) (m' : M) (rest : Bytes)
    → into set o ≡ read m' rest
    → (v : V) × (o ≡ some (v, rest))
into-read set none m' rest h = absurd (cc)
into-read set (some (v, bs)) m' rest h = (v, cc)

pub Shrinks-into :
    {V M : Type 0} (f : Bytes → Option (V × Bytes)) (set : M → V → M)
    → IsReader f
    → Shrinks {M = M} (λ m bs. into (set m) (f bs))
Shrinks-into f set r m bs m' rest h =
    let (v, e) = into-read (set m) (f bs) m' rest h in r bs v rest e

pub Shrinks-if :
    {M : Type 0} (b : Bool) (f g : M → Bytes → Step M)
    → Shrinks f
    → Shrinks g
    → Shrinks {M = M} (λ m bs. if b then f m bs else g m bs)
Shrinks-if true f g hf hg = hf
Shrinks-if false f g hf hg = hg

with_rest-some :
    (o : Option ℤ) (bs : Bytes) (n : ℤ) (rest : Bytes) → with_rest o bs ≡ some (n, rest) → bs ≡ rest
with_rest-some none bs n rest h = absurd (cc)
with_rest-some (some k) bs n rest h = cc

to_number-some :
    (o : Option (ℤ × Bytes)) (n : ℤ) (rest : Bytes)
    → to_number o ≡ some (n, rest)
    → (k : ℤ) × (o ≡ some (k, rest))
to_number-some none n rest h = absurd (cc)
to_number-some (some (k, bs)) n rest h =
    (k, ap (λ r. some (k, r)) (with_rest-some (long_to_number k) bs n rest h))

Step-cases :
    {M : Type 0} (x : Step M)
    → (x ≡ other) ⊎ (x ≡ threw) ⊎ ((m : M) × (rest : Bytes) × (x ≡ read m rest))
Step-cases other = inl refl
Step-cases threw = inr (inl refl)
Step-cases (read m rest) = inr (inr (m, rest, refl))

result-some :
    {M : Type 0} (l : Loop M) (m : M) (rest : Bytes) → result l ≡ some (m, rest) → l ≡ ended m rest
result-some goes_on m rest h = absurd (cc)
result-some exception m rest h = absurd (cc)
result-some (ended m' rest') m rest h = ap (λ p. ended p.0 p.1) (some-injective _ _ h)

module _ (w : Wire) where
  pub to_number-IsReader : IsReader (λ bs. to_number (w.read_int64 bs))
  to_number-IsReader bs n rest h =
      let (k, e) = to_number-some (w.read_int64 bs) n rest h in w.int64_takes bs k rest e

  module _ {M : Type 0} (read_field : ℕ → M → Bytes → Step M)
      (shrinks : (tag : ℕ) → Shrinks (read_field tag)) where
    -- The loop is done after this round, with a result that leaves no more bytes than there were.
    abbrev Done : Option ℕ → M → Bytes → Type 0
    Done end m bs =
        (r : Loop M) × ((fuel : ℕ) → run_loop w read_field (suc fuel) end m bs ≡ r)
        × (r ≢ goes_on)
        × ((m' : M) (rest : Bytes) → r ≡ ended m' rest → length rest ≤ length bs)

    -- Or it goes on, with fewer bytes.
    abbrev GoesOn : Option ℕ → M → Bytes → Type 0
    GoesOn end m bs =
        (m' : M) × (rest : Bytes) × (length rest < length bs)
        × ((fuel : ℕ)
            → run_loop w read_field (suc fuel) end m bs ≡ run_loop w read_field fuel end m' rest)

    failed_round :
        (bs : Bytes) (m' : M) (rest : Bytes)
        → ◌≡◌ {A = Loop M} exception (ended m' rest)
        → length rest ≤ length bs
    failed_round bs m' rest h = absurd (cc)

    ended_round :
        (m : M) (bs left : Bytes)
        → length left ≤ length bs
        → (m' : M) (rest : Bytes) → ended m left ≡ ended m' rest
        → length rest ≤ length bs
    ended_round m bs left fewer m' rest h =
        let same : left ≡ rest = cc in subst (λ l. length l ≤ length bs) same fewer

    threw_done : ◌≢◌ {A = Loop M} exception goes_on
    threw_done h = absurd (cc)

    ended_done : (m : M) (bs : Bytes) → ended m bs ≢ goes_on
    ended_done m bs h = absurd (cc)

    round_cases : (end : Option ℕ) (m : M) (bs : Bytes) → Done end m bs ⊎ GoesOn end m bs
    unfolding run_loop
    round_cases end m bs = elim (Bool-cases (is_before end bs)) [
      | inr e ↦
          inl (
            ended m bs,
            λ fuel. rw (run_loop, e),
            ended_done m bs,
            ended_round m bs bs (omega arith),
          )
      | inl e ↦ elim (Option-cases (w.read_uint32 bs)) [
        | inl none_left ↦
            inl (exception, λ fuel. rw (run_loop, e, none_left), threw_done, failed_round bs)
        | inr ((tag, rest), tagged) ↦
            let fewer = w.uint32_takes bs tag rest tagged in
            elim (Step-cases (read_field tag m rest)) [
              | inr (inl threw_here) ↦ inl (
                exception,
                λ fuel. rw (run_loop, e, tagged, threw_here),
                threw_done,
                failed_round bs,
              )
              | inr (inr (m', rest', case)) ↦
                  let left = shrinks tag m rest m' rest' case in
                  inr (m', rest', omega arith, λ fuel. rw (run_loop, e, tagged, case))
              | inl no_case ↦ elim (Bool-cases (is_end_tag tag)) [
                | inl ends ↦ inl (
                  ended m rest,
                  λ fuel. rw (run_loop, e, tagged, no_case, ends),
                  ended_done m rest,
                  ended_round m bs rest (omega arith),
                )
                | inr goes ↦ elim (Option-cases (w.skip (tag % 8) rest)) [
                  | inl stuck ↦ inl (
                    exception,
                    λ fuel. rw (run_loop, e, tagged, no_case, goes, stuck),
                    threw_done,
                    failed_round bs,
                  )
                  | inr (rest', skipped) ↦
                      let left = w.skip_takes (tag % 8) rest rest' skipped in
                      inr (
                        m,
                        rest',
                        omega arith,
                        λ fuel. rw (run_loop, e, tagged, no_case, goes, skipped),
                      )
                ]
              ]
            ]
      ]
    ]

    -- With a round more than there are bytes, the loop ends.
    pub run_loop_ends :
        (fuel : ℕ) (end : Option ℕ) (m : M) (bs : Bytes)
        → length bs < fuel
        → run_loop w read_field fuel end m bs ≢ goes_on
    run_loop_ends zero end m bs h = absurd (omega arith)
    run_loop_ends (suc fuel) end m bs h = elim (round_cases end m bs) [
      | inl (r, done, over, fewer) ↦ λ e. over (sym (done fuel) ∙ e)
      | inr (m', rest, fewer, step) ↦
          λ e. run_loop_ends fuel end m' rest (omega arith) (sym (step fuel) ∙ e)
    ]

    -- Two amounts of fuel that are both enough lead to the same result.
    pub run_loop_enough :
        (fuel fuel' : ℕ) (end : Option ℕ) (m : M) (bs : Bytes)
        → length bs < fuel
        → length bs < fuel'
        → run_loop w read_field fuel end m bs ≡ run_loop w read_field fuel' end m bs
    run_loop_enough zero fuel' end m bs h h' = absurd (omega arith)
    run_loop_enough (suc fuel) zero end m bs h h' = absurd (omega arith)
    run_loop_enough (suc fuel) (suc fuel') end m bs h h' = elim (round_cases end m bs) [
      | inl (r, done, over, fewer) ↦ done fuel ∙ sym (done fuel')
      | inr (m', rest, fewer, step) ↦
          step fuel
          ∙ run_loop_enough fuel fuel' end m' rest (omega arith) (omega arith)
          ∙ sym (step fuel')
    ]

    run_loop_takes :
        (fuel : ℕ) (end : Option ℕ) (m : M) (bs : Bytes) (m' : M) (rest : Bytes)
        → run_loop w read_field fuel end m bs ≡ ended m' rest
        → length rest ≤ length bs
    run_loop_takes zero end m bs m' rest h = unfold run_loop in absurd (cc)
    run_loop_takes (suc fuel) end m bs m' rest h = elim (round_cases end m bs) [
      | inl (r, done, over, fewer) ↦ fewer m' rest (sym (done fuel) ∙ h)
      | inr (m'', rest'', fewer, step) ↦
          let later = run_loop_takes fuel end m'' rest'' m' rest (sym (step fuel) ∙ h) in
          omega arith
    ]

    decode_loop_takes :
        (fuel : ℕ) (end : Option ℕ) (m : M) (bs : Bytes) (m' : M) (rest : Bytes)
        → decode_loop w read_field fuel end m bs ≡ some (m', rest)
        → length rest ≤ length bs
    unfolding decode_loop
    decode_loop_takes fuel end m bs m' rest h =
        run_loop_takes fuel end m bs m' rest
          (result-some (run_loop w read_field fuel end m bs) m' rest h)

    decode_framed_takes :
        (base : M) (o : Option (ℕ × Bytes)) (m : M) (rest bs : Bytes)
        → ((len : ℕ) (behind : Bytes) → o ≡ some (len, behind) → length behind < length bs)
        → decode_framed w read_field base o ≡ some (m, rest)
        → length rest ≤ length bs
    unfolding decode_framed
    decode_framed_takes base none m rest bs fewer h = absurd (cc)
    decode_framed_takes base (some (len, behind)) m rest bs fewer h =
        let left =
          decode_loop_takes (suc (length behind)) (end_after len behind) base behind m rest h in
        let few = fewer len behind refl in omega arith

    pub decode_nested-IsReader : (base : M) → IsReader (decode_nested w read_field base)
    unfolding decode_nested
    decode_nested-IsReader base bs m rest h =
        decode_framed_takes base (w.read_uint32 bs) m rest bs (w.uint32_takes bs) h
