-- ===== src/Wire/Cart/RoundTrip.antt =====
-- What `decode` makes of the bytes of `encode`, for the messages of the parent module.
use opentelemetry_demo_mb3r.Prelude.{◌^◌, ◌<◌, pos, ◌≡◌, refl, none, some, [], All, length, arith}
use opentelemetry_demo_mb3r.Proto.{AddItemRequest, Cart, CartItem, EmptyCartRequest, GetCartRequest}
use opentelemetry_demo_mb3r.Wire.{Wire, IsInt32}
use opentelemetry_demo_mb3r.Wire.Reading.{
  Takes, Takes-nothing, Takes-then, Takes-string, Takes-int32, decode_all-Takes,
}
use opentelemetry_demo_mb3r.Wire.Nesting.{OnSome, Takes-message, Takes-messages}
use opentelemetry_demo_mb3r.Wire.Cart.{
  base_cart_item, encode_cart_item, read_cart_item, decode_cart_item, base_empty_cart_request,
  encode_empty_cart_request, read_empty_cart_request, decode_empty_cart_request,
  base_get_cart_request, encode_get_cart_request, read_get_cart_request, decode_get_cart_request,
  base_empty, encode_empty, read_empty, decode_empty, base_add_item_request,
  encode_add_item_request, read_add_item_request, decode_add_item_request, base_cart, encode_cart,
  read_cart, decode_cart,
}

module _ (w : Wire) where
  abbrev pub FitsCartItem : CartItem → Type 0
  FitsCartItem m = IsInt32 m.quantity

  pub Takes-cart_item :
      (m : CartItem)
      → FitsCartItem m
      → Takes w (read_cart_item w) (encode_cart_item w m) base_cart_item m
  unfolding encode_cart_item read_cart_item
  Takes-cart_item m h =
      Takes-then w (read_cart_item w)
        (Takes-string w (read_cart_item w) 10 (λ v. record { product_id = v; quantity = pos 0 })
          m.product_id (omega arith) (λ bs. refl))
        (Takes-int32 w (read_cart_item w) 16
          (λ v. record { product_id = m.product_id; quantity = v }) m.quantity (omega arith) h
          (λ bs. refl))

  pub decode_cart_item-encode_cart_item :
      (m : CartItem) → FitsCartItem m → decode_cart_item w (encode_cart_item w m) ≡ some m
  unfolding decode_cart_item
  decode_cart_item-encode_cart_item m h =
      decode_all-Takes w (read_cart_item w) (Takes-cart_item m h)

  pub Takes-empty_cart_request :
      (m : EmptyCartRequest)
      → Takes w
          (read_empty_cart_request w)
          (encode_empty_cart_request w m)
          base_empty_cart_request
          m
  unfolding encode_empty_cart_request read_empty_cart_request
  Takes-empty_cart_request m =
      Takes-string w (read_empty_cart_request w) 10 (λ v. record { user_id = v }) m.user_id
        (omega arith) (λ bs. refl)

  pub decode_empty_cart_request-encode_empty_cart_request :
      (m : EmptyCartRequest) → decode_empty_cart_request w (encode_empty_cart_request w m) ≡ some m
  unfolding decode_empty_cart_request
  decode_empty_cart_request-encode_empty_cart_request m =
      decode_all-Takes w (read_empty_cart_request w) (Takes-empty_cart_request m)

  pub Takes-get_cart_request :
      (m : GetCartRequest)
      → Takes w (read_get_cart_request w) (encode_get_cart_request w m) base_get_cart_request m
  unfolding encode_get_cart_request read_get_cart_request
  Takes-get_cart_request m =
      Takes-string w (read_get_cart_request w) 10 (λ v. record { user_id = v }) m.user_id
        (omega arith) (λ bs. refl)

  pub decode_get_cart_request-encode_get_cart_request :
      (m : GetCartRequest) → decode_get_cart_request w (encode_get_cart_request w m) ≡ some m
  unfolding decode_get_cart_request
  decode_get_cart_request-encode_get_cart_request m =
      decode_all-Takes w (read_get_cart_request w) (Takes-get_cart_request m)

  pub Takes-empty : (m : Unit {0}) → Takes w (read_empty w) (encode_empty w m) base_empty m
  unfolding encode_empty read_empty
  Takes-empty m = Takes-nothing w (read_empty w) tt

  pub decode_empty-encode_empty : (m : Unit {0}) → decode_empty w (encode_empty w m) ≡ some m
  unfolding decode_empty
  decode_empty-encode_empty m = decode_all-Takes w (read_empty w) (Takes-empty m)

  abbrev pub FitsAddItemRequest : AddItemRequest → Type 0
  FitsAddItemRequest m =
      OnSome (λ x. FitsCartItem x × (length (encode_cart_item w x) < 2 ^ 32)) m.item

  pub Takes-add_item_request :
      (m : AddItemRequest)
      → FitsAddItemRequest m
      → Takes w (read_add_item_request w) (encode_add_item_request w m) base_add_item_request m
  unfolding encode_add_item_request read_add_item_request
  Takes-add_item_request m h =
      Takes-then w (read_add_item_request w)
        (Takes-string w (read_add_item_request w) 10 (λ v. record { user_id = v; item = none })
          m.user_id (omega arith) (λ bs. refl))
        (Takes-message w (read_add_item_request w) (read_cart_item w) (encode_cart_item w)
          base_cart_item 18 (λ v. record { user_id = m.user_id; item = v }) m.item (omega arith)
          (λ x p. (Takes-cart_item x p.0, p.1)) h (λ bs. refl))

  pub decode_add_item_request-encode_add_item_request :
      (m : AddItemRequest)
      → FitsAddItemRequest m
      → decode_add_item_request w (encode_add_item_request w m) ≡ some m
  unfolding decode_add_item_request
  decode_add_item_request-encode_add_item_request m h =
      decode_all-Takes w (read_add_item_request w) (Takes-add_item_request m h)

  abbrev pub FitsCart : Cart → Type 0
  FitsCart m = All (λ x. FitsCartItem x × (length (encode_cart_item w x) < 2 ^ 32)) m.items

  pub Takes-cart : (m : Cart) → FitsCart m → Takes w (read_cart w) (encode_cart w m) base_cart m
  unfolding encode_cart read_cart
  Takes-cart m h =
      Takes-then w (read_cart w)
        (Takes-string w (read_cart w) 10 (λ v. record { user_id = v; items = [] }) m.user_id
          (omega arith) (λ bs. refl))
        (Takes-messages w (read_cart w) (read_cart_item w) (encode_cart_item w) base_cart_item 18
          (λ v. record { user_id = m.user_id; items = v }) [] m.items (omega arith)
          (λ x p. (Takes-cart_item x p.0, p.1)) h (λ before bs. refl))

  pub decode_cart-encode_cart : (m : Cart) → FitsCart m → decode_cart w (encode_cart w m) ≡ some m
  unfolding decode_cart
  decode_cart-encode_cart m h = decode_all-Takes w (read_cart w) (Takes-cart m h)
