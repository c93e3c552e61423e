-- ===== src/Wire/Cart.antt =====
-- `encode` and `decode` of `CartItem`, `EmptyCartRequest`, `GetCartRequest`, `Empty`, `AddItemRequest`, `Cart`
-- in src/frontend/protos/demo.ts.
pub mod RoundTrip
pub mod Fuel
use opentelemetry_demo_mb3r.Prelude.{ℕ, pos, Option, none, some, [], ◌∷◌, ◌++◌, eqb, if◌then◌else◌}
use opentelemetry_demo_mb3r.Proto.{AddItemRequest, Cart, CartItem, EmptyCartRequest, GetCartRequest}
use opentelemetry_demo_mb3r.Wire.{
  Bytes, Wire, Step, other, into, decode_all, decode_nested, put_string, put_int32, put_message,
  put_messages,
}

abbrev pub base_cart_item : CartItem
base_cart_item = record { product_id = ""; quantity = pos 0 }

abbrev pub base_empty_cart_request : EmptyCartRequest
base_empty_cart_request = record { user_id = "" }

abbrev pub base_get_cart_request : GetCartRequest
base_get_cart_request = record { user_id = "" }

abbrev pub base_empty : Unit {0}
base_empty = tt

abbrev pub base_add_item_request : AddItemRequest
base_add_item_request = record { user_id = ""; item = none }

abbrev pub base_cart : Cart
base_cart = record { user_id = ""; items = [] }

module _ (w : Wire) where
  unfoldable pub encode_cart_item : CartItem → Bytes
  encode_cart_item m = put_string w 10 m.product_id ++ put_int32 w 16 m.quantity

  unfoldable pub read_cart_item : ℕ → CartItem → Bytes → Step (CartItem)
  read_cart_item tag m bs =
      if eqb tag 10
      then into (λ v. record m { product_id = v }) (w.read_string bs)
      else if eqb tag 16
      then into (λ v. record m { quantity = v }) (w.read_int32 bs)
      else other

  unfoldable pub decode_cart_item : Bytes → Option (CartItem)
  unfolding decode_all read_cart_item
  decode_cart_item bs = decode_all w read_cart_item base_cart_item bs

  unfoldable pub encode_empty_cart_request : EmptyCartRequest → Bytes
  encode_empty_cart_request m = put_string w 10 m.user_id

  unfoldable pub read_empty_cart_request : ℕ → EmptyCartRequest → Bytes → Step (EmptyCartRequest)
  read_empty_cart_request tag m bs =
      if eqb tag 10 then into (λ v. record m { user_id = v }) (w.read_string bs) else other

  unfoldable pub decode_empty_cart_request : Bytes → Option (EmptyCartRequest)
  unfolding decode_all read_empty_cart_request
  decode_empty_cart_request bs = decode_all w read_empty_cart_request base_empty_cart_request bs

  unfoldable pub encode_get_cart_request : GetCartRequest → Bytes
  encode_get_cart_request m = put_string w 10 m.user_id

  unfoldable pub read_get_cart_request : ℕ → GetCartRequest → Bytes → Step (GetCartRequest)
  read_get_cart_request tag m bs =
      if eqb tag 10 then into (λ v. record m { user_id = v }) (w.read_string bs) else other

  unfoldable pub decode_get_cart_request : Bytes → Option (GetCartRequest)
  unfolding decode_all read_get_cart_request
  decode_get_cart_request bs = decode_all w read_get_cart_request base_get_cart_request bs

  unfoldable pub encode_empty : Unit {0} → Bytes
  encode_empty m = []

  unfoldable pub read_empty : ℕ → Unit {0} → Bytes → Step (Unit {0})
  read_empty tag m bs = other

  unfoldable pub decode_empty : Bytes → Option (Unit {0})
  unfolding decode_all read_empty
  decode_empty bs = decode_all w read_empty base_empty bs

  unfoldable pub encode_add_item_request : AddItemRequest → Bytes
  unfolding encode_cart_item
  encode_add_item_request m = put_string w 10 m.user_id ++ put_message w encode_cart_item 18 m.item

  unfoldable pub read_add_item_request : ℕ → AddItemRequest → Bytes → Step (AddItemRequest)
  unfolding decode_nested read_cart_item
  read_add_item_request tag m bs =
      if eqb tag 10
      then into (λ v. record m { user_id = v }) (w.read_string bs)
      else if eqb tag 18
      then into (λ v. record m { item = some v }) (decode_nested w read_cart_item base_cart_item bs)
      else other

  unfoldable pub decode_add_item_request : Bytes → Option (AddItemRequest)
  unfolding decode_all read_add_item_request
  decode_add_item_request bs = decode_all w read_add_item_request base_add_item_request bs

  unfoldable pub encode_cart : Cart → Bytes
  unfolding encode_cart_item
  encode_cart m = put_string w 10 m.user_id ++ put_messages w encode_cart_item 18 m.items

  unfoldable pub read_cart : ℕ → Cart → Bytes → Step (Cart)
  unfolding decode_nested read_cart_item
  read_cart tag m bs =
      if eqb tag 10
      then into (λ v. record m { user_id = v }) (w.read_string bs)
      else if eqb tag 18
      then into (λ v. record m { items = m.items ++ v ∷ [] })
          (decode_nested w read_cart_item base_cart_item bs)
      else other

  unfoldable pub decode_cart : Bytes → Option (Cart)
  unfolding decode_all read_cart
  decode_cart bs = decode_all w read_cart base_cart bs
