-- ===== src/Stub/Exchange.antt =====
-- A call whose bytes are read back.
use opentelemetry_demo_mb3r.Prelude.{◌≡◌, refl, ap, ◌∙◌, some}
use opentelemetry_demo_mb3r.Calls.{Failure, Callback, error, response}
use opentelemetry_demo_mb3r.Stub.{map_reply, respond, exchange}
use opentelemetry_demo_mb3r.Stub.Methods.{Rpc}

-- The property holds of the answer, if there is one.
abbrev pub OnResponse : {A : Type 0} → (A → Type 0) → Callback A → Type 0
OnResponse P (error e) = Unit
OnResponse P (response a) = P a

OnResponse-map :
    {A B S : Type 0} (P : B → Type 0) (f : A → B) (x : Callback A × S)
    → OnResponse (λ a. P (f a)) x.0
    → OnResponse P (map_reply f x).0
OnResponse-map P f (error e, s) h = tt
OnResponse-map P f (response a, s) h = h

map_reply_back :
    {A B S : Type 0} (f : A → B) (g : B → A) (x : Callback A × S)
    → OnResponse (λ a. g (f a) ≡ a) x.0
    → map_reply g (map_reply f x) ≡ x
map_reply_back f g (error e, s) h = refl
map_reply_back f g (response a, s) h = ap (λ b. (response b, s)) h

pub OnResponse-all :
    {A : Type 0} (P : A → Type 0) → ((a : A) → P a) → (x : Callback A) → OnResponse P x
OnResponse-all P h (error e) = tt
OnResponse-all P h (response a) = h a

pub OnResponse-mono :
    {A : Type 0} (P Q : A → Type 0)
    → ((a : A) → P a → Q a)
    → (x : Callback A) → OnResponse P x
    → OnResponse Q x
OnResponse-mono P Q h (error e) p = tt
OnResponse-mono P Q h (response a) p = h a p

module _ {S Req Res : Type 0} (undecodable : Failure) (rpc : Rpc Req Res) where
  respond_back :
      (x : Callback Res × S)
      → OnResponse (λ a. rpc.response_deserialize (rpc.response_serialize a) ≡ some a) x.0
      → respond undecodable rpc x ≡ x
  respond_back (error e, s) h = refl
  respond_back (response a, s) h = rw (respond, h)

  pub exchange_back :
      (serve : Req → S → Callback Res × S) (req : Req) (s : S)
      → rpc.request_deserialize (rpc.request_serialize req) ≡ some req
      → OnResponse
          (λ a. rpc.response_deserialize (rpc.response_serialize a) ≡ some a)
          (serve req s).0
      → exchange undecodable rpc serve req s ≡ serve req s
  unfolding exchange
  exchange_back serve req s back h = rw (exchange, back) (respond_back (serve req s) h)

  -- The same where the answer is a field of the response.
  pub exchange_field :
      {A : Type 0} (serve : Req → S → Callback A × S) (f : A → Res) (g : Res → A) (req : Req)
      (s : S)
      → rpc.request_deserialize (rpc.request_serialize req) ≡ some req
      → OnResponse
          (λ a.
            (rpc.response_deserialize (rpc.response_serialize (f a)) ≡ some (f a)) × (g (f a) ≡ a))
          (serve req s).0
      → map_reply g (exchange undecodable rpc (λ r s. map_reply f (serve r s)) req s) ≡ serve req s
  exchange_field serve f g req s back h =
      ap (map_reply g) (
        exchange_back (λ r s. map_reply f (serve r s)) req s back
          (OnResponse-map (λ a. rpc.response_deserialize (rpc.response_serialize a) ≡ some a) f
            (serve req s) (OnResponse-mono _ _ (λ a p. p.0) (serve req s).0 h)))
      ∙ map_reply_back f g (serve req s) (OnResponse-mono _ _ (λ a p. p.1) (serve req s).0 h)
