-- ===== src/TestCache.antt =====
-- Data for the tests: a query client whose cache is a function of the keys.
use opentelemetry_demo_mb3r.Prelude.{
  String, ◌≡◌, ◌≢◌, refl, sym, Bool, true, false, Option, none, some, List, [], ◌∷◌, ◌++◌, ◌==◌,
  eq_iff, if◌then◌else◌, Bool-cases, inl, inr,
}
use opentelemetry_demo_mb3r.Provider.{QueryClient}
use opentelemetry_demo_mb3r.Fixtures.{same}

abbrev pub same_key : List String → List String → Bool
same_key [] [] = true
same_key (a ∷ more) (b ∷ others) = if a == b then same_key more others else false
same_key _ _ = false

abbrev pub starts_with : List String → List String → Bool
starts_with [] key = true
starts_with (a ∷ more) (b ∷ others) = if a == b then starts_with more others else false
starts_with (a ∷ more) [] = false

same_key_refl : (key : List String) → same_key key key ≡ true
same_key_refl [] = refl
same_key_refl (a ∷ more) = rw (same a) (same_key_refl more)

both_true : (b c : Bool) → (if b then c else false) ≡ true → (b ≡ true) × (c ≡ true)
both_true true c h = (refl, h)
both_true false c h = absurd (cc)

same_key→≡ : (key other : List String) → same_key key other ≡ true → key ≡ other
same_key→≡ [] [] h = refl
same_key→≡ [] (b ∷ others) h = absurd (cc)
same_key→≡ (a ∷ more) [] h = absurd (cc)
same_key→≡ (a ∷ more) (b ∷ others) h =
    let (e, rest) = both_true (a == b) (same_key more others) h in
    let first = (eq_iff a b).0 e in let then' = same_key→≡ more others rest in cc

starts_with_append : (start rest : List String) → starts_with start (start ++ rest) ≡ true
starts_with_append [] rest = refl
starts_with_append (a ∷ more) rest = rw (same a) (starts_with_append more rest)

pub current_other_lem :
    {D : Type 0} (c : List String → Option D) (key other : List String) (d : D)
    → other ≢ key
    → (if same_key key other then some d else c other) ≡ c other
current_other_lem c key other d ne = elim (Bool-cases (same_key key other)) [
  | inl e ↦ absurd (ne (sym (same_key→≡ key other e)))
  | inr e ↦ rw e refl
]

pub current_store_lem :
    {D : Type 0} (c : List String → Option D) (key : List String) (d : D)
    → (if same_key key key then some d else c key) ≡ some d
current_store_lem c key d = rw (same_key_refl key) refl

pub current_invalidate_lem :
    {D : Type 0} (c : List String → Option D) (start rest : List String)
    → (if starts_with start (start ++ rest) then none else c (start ++ rest)) ≡ none
current_invalidate_lem c start rest = rw (starts_with_append start rest) refl

abbrev pub test_client : (D : Type 0) → QueryClient D
test_client D = record {
  Cache = List String → Option D;
  current = λ c key. c key;
  store = λ key d c other. if same_key key other then some d else c other;
  invalidate = λ start c key. if starts_with start key then none else c key;
  current_store = λ c key d. current_store_lem c key d;
  current_other = λ c key other d ne. current_other_lem c key other d ne;
  current_invalidate = λ c start rest. current_invalidate_lem c start rest;
}
