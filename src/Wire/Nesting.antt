-- ===== src/Wire/Nesting.antt =====
-- Fields that hold messages.
use mathlib.Core.List.{append-nil, append_assoc}
use opentelemetry_demo_mb3r.Prelude.{
  ℕ, ◌^◌, ◌<◌, ◌≡◌, subst, Option, none, some, List, [], ◌∷◌, ◌++◌, All, length,
}
use opentelemetry_demo_mb3r.Wire.{Bytes, Wire, Step, into, decode_nested, put_message, put_messages}
use opentelemetry_demo_mb3r.Wire.Reading.{
  Takes, Takes-nothing, Takes-then, Takes-value, decode_nested-Takes,
}

-- The property holds of the value, if there is one.
abbrev pub OnSome : {A : Type 0} → (A → Type 0) → Option A → Type 0
OnSome P none = Unit
OnSome P (some a) = P a

-- The bytes of the message are read back, and their number can be written in front of them.
abbrev pub Packs : {N : Type 0} (w : Wire) → (ℕ → N → Bytes → Step N) → (N → Bytes) → N → N → Type 0
Packs w read_inner encode base x =
    Takes w read_inner (encode x) base x × (length (encode x) < 2 ^ 32)

module _ (w : Wire) {M N : Type 0} (read_field : ℕ → M → Bytes → Step M)
    (read_inner : ℕ → N → Bytes → Step N) (encode : N → Bytes) (base : N) where
  one_message :
      (tag : ℕ) (m : M) (set : N → M) (x : N)
      → tag < 2 ^ 32
      → Packs w read_inner encode base x
      → ((bs : Bytes) → read_field tag m bs ≡ into set (decode_nested w read_inner base bs))
      → Takes w read_field (w.write_uint32 tag ++ w.join (encode x)) m (set x)
  one_message tag m set x small packs case =
      Takes-value w read_field tag (w.join (encode x)) x (decode_nested w read_inner base) m set
        small case (λ rest. decode_nested-Takes w read_inner rest packs.0 packs.1)

  pub Takes-message :
      {P : N → Type 0} (tag : ℕ) (set : Option N → M) (o : Option N)
      → tag < 2 ^ 32
      → ((x : N) → P x → Packs w read_inner encode base x)
      → OnSome P o
      → ((bs : Bytes)
          → read_field tag (set none) bs
            ≡ into (λ v. set (some v)) (decode_nested w read_inner base bs))
      → Takes w read_field (put_message w encode tag o) (set none) (set o)
  Takes-message tag set none small packs h case = Takes-nothing w read_field (set none)
  Takes-message tag set (some x) small packs h case =
      one_message tag (set none) (λ v. set (some v)) x small (packs x h) case

  pub Takes-messages :
      {P : N → Type 0} (tag : ℕ) (set : List N → M) (acc xs : List N)
      → tag < 2 ^ 32
      → ((x : N) → P x → Packs w read_inner encode base x)
      → All P xs
      → ((before : List N) (bs : Bytes)
          → read_field tag (set before) bs
            ≡ into (λ v. set (before ++ v ∷ [])) (decode_nested w read_inner base bs))
      → Takes w read_field (put_messages w encode tag xs) (set acc) (set (acc ++ xs))
  Takes-messages tag set acc [] small packs h case =
      rw (append-nil acc) (Takes-nothing w read_field (set acc))
  Takes-messages tag set acc (x ∷ xs) small packs h case =
      Takes-then w read_field
        (one_message tag (set acc) (λ v. set (acc ++ v ∷ [])) x small (packs x h.0) (case acc))
        (subst
          (λ l. Takes w read_field (put_messages w encode tag xs) (set (acc ++ x ∷ [])) (set l))
          (append_assoc acc (x ∷ []) xs)
          (Takes-messages tag set (acc ++ x ∷ []) xs small packs h.1 case))
