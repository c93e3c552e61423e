-- ===== src/Wire/Order/RoundTrip.antt =====
-- What `decode` makes of the bytes of `encode`, for the messages of the parent module.
use opentelemetry_demo_mb3r.Prelude.{◌^◌, ◌<◌, pos, ◌≡◌, refl, none, some, [], All, length, arith}
use opentelemetry_demo_mb3r.Proto.{Address, CreditCardInfo, OrderItem, OrderResult}
use opentelemetry_demo_mb3r.Wire.{Wire, IsInt32}
use opentelemetry_demo_mb3r.Wire.Reading.{
  Takes, Takes-then, Takes-string, Takes-int32, decode_all-Takes,
}
use opentelemetry_demo_mb3r.Wire.Nesting.{OnSome, Takes-message, Takes-messages}
use opentelemetry_demo_mb3r.Wire.Order.{
  base_address, encode_address, read_address, decode_address, base_credit_card_info,
  encode_credit_card_info, read_credit_card_info, decode_credit_card_info, base_order_item,
  encode_order_item, read_order_item, decode_order_item, base_order_result, encode_order_result,
  read_order_result, decode_order_result,
}
use opentelemetry_demo_mb3r.Wire.Cart.{base_cart_item, encode_cart_item, read_cart_item}
use opentelemetry_demo_mb3r.Wire.Cart.RoundTrip.{Takes-cart_item, FitsCartItem}
use opentelemetry_demo_mb3r.Wire.Money.{base_money, encode_money, read_money}
use opentelemetry_demo_mb3r.Wire.Money.RoundTrip.{Takes-money, FitsMoney}

module _ (w : Wire) where
  pub Takes-address : (m : Address) → Takes w (read_address w) (encode_address w m) base_address m
  unfolding encode_address read_address
  Takes-address m =
      Takes-then w (read_address w)
        (Takes-then w (read_address w)
          (Takes-then w (read_address w)
            (Takes-then w (read_address w)
              (Takes-string w (read_address w) 10
                (λ v. record {
                  street_address = v;
                  city = "";
                  state = "";
                  country = "";
                  zip_code = "";
                })
                m.street_address (omega arith) (λ bs. refl))
              (Takes-string w (read_address w) 18
                (λ v. record {
                  street_address = m.street_address;
                  city = v;
                  state = "";
                  country = "";
                  zip_code = "";
                })
                m.city (omega arith) (λ bs. refl)))
            (Takes-string w (read_address w) 26
              (λ v. record {
                street_address = m.street_address;
                city = m.city;
                state = v;
                country = "";
                zip_code = "";
              })
              m.state (omega arith) (λ bs. refl)))
          (Takes-string w (read_address w) 34
            (λ v. record {
              street_address = m.street_address;
              city = m.city;
              state = m.state;
              country = v;
              zip_code = "";
            })
            m.country (omega arith) (λ bs. refl)))
        (Takes-string w (read_address w) 42
          (λ v. record {
            street_address = m.street_address;
            city = m.city;
            state = m.state;
            country = m.country;
            zip_code = v;
          })
          m.zip_code (omega arith) (λ bs. refl))

  pub decode_address-encode_address : (m : Address) → decode_address w (encode_address w m) ≡ some m
  unfolding decode_address
  decode_address-encode_address m = decode_all-Takes w (read_address w) (Takes-address m)

  abbrev pub FitsCreditCardInfo : CreditCardInfo → Type 0
  FitsCreditCardInfo m =
      (IsInt32 m.credit_card_cvv)
      × (IsInt32 m.credit_card_expiration_year)
      × (IsInt32 m.credit_card_expiration_month)

  pub Takes-credit_card_info :
      (m : CreditCardInfo)
      → FitsCreditCardInfo m
      → Takes w (read_credit_card_info w) (encode_credit_card_info w m) base_credit_card_info m
  unfolding encode_credit_card_info read_credit_card_info
  Takes-credit_card_info m h =
      Takes-then w (read_credit_card_info w)
        (Takes-then w (read_credit_card_info w)
          (Takes-then w (read_credit_card_info w)
            (Takes-string w (read_credit_card_info w) 10
              (λ v. record {
                credit_card_number = v;
                credit_card_cvv = pos 0;
                credit_card_expiration_year = pos 0;
                credit_card_expiration_month = pos 0;
              })
              m.credit_card_number (omega arith) (λ bs. refl))
            (Takes-int32 w (read_credit_card_info w) 16
              (λ v. record {
                credit_card_number = m.credit_card_number;
                credit_card_cvv = v;
                credit_card_expiration_year = pos 0;
                credit_card_expiration_month = pos 0;
              })
              m.credit_card_cvv (omega arith) h.0 (λ bs. refl)))
          (Takes-int32 w (read_credit_card_info w) 24
            (λ v. record {
              credit_card_number = m.credit_card_number;
              credit_card_cvv = m.credit_card_cvv;
              credit_card_expiration_year = v;
              credit_card_expiration_month = pos 0;
            })
            m.credit_card_expiration_year (omega arith) h.1 (λ bs. refl)))
        (Takes-int32 w (read_credit_card_info w) 32
          (λ v. record {
            credit_card_number = m.credit_card_number;
            credit_card_cvv = m.credit_card_cvv;
            credit_card_expiration_year = m.credit_card_expiration_year;
            credit_card_expiration_month = v;
          })
          m.credit_card_expiration_month (omega arith) h.2 (λ bs. refl))

  pub decode_credit_card_info-encode_credit_card_info :
      (m : CreditCardInfo)
      → FitsCreditCardInfo m
      → decode_credit_card_info w (encode_credit_card_info w m) ≡ some m
  unfolding decode_credit_card_info
  decode_credit_card_info-encode_credit_card_info m h =
      decode_all-Takes w (read_credit_card_info w) (Takes-credit_card_info m h)

  abbrev pub FitsOrderItem : OrderItem → Type 0
  FitsOrderItem m =
      (OnSome (λ x. FitsCartItem w x × (length (encode_cart_item w x) < 2 ^ 32)) m.item)
      × (OnSome (λ x. FitsMoney w x × (length (encode_money w x) < 2 ^ 32)) m.cost)

  pub Takes-order_item :
      (m : OrderItem)
      → FitsOrderItem m
      → Takes w (read_order_item w) (encode_order_item w m) base_order_item m
  unfolding encode_order_item read_order_item
  Takes-order_item m h =
      Takes-then w (read_order_item w)
        (Takes-message w (read_order_item w) (read_cart_item w) (encode_cart_item w) base_cart_item
          10 (λ v. record { item = v; cost = none }) m.item (omega arith)
          (λ x p. (Takes-cart_item w x p.0, p.1)) h.0 (λ bs. refl))
        (Takes-message w (read_order_item w) (read_money w) (encode_money w) base_money 18
          (λ v. record { item = m.item; cost = v }) m.cost (omega arith)
          (λ x p. (Takes-money w x p.0, p.1)) h.1 (λ bs. refl))

  pub decode_order_item-encode_order_item :
      (m : OrderItem) → FitsOrderItem m → decode_order_item w (encode_order_item w m) ≡ some m
  unfolding decode_order_item
  decode_order_item-encode_order_item m h =
      decode_all-Takes w (read_order_item w) (Takes-order_item m h)

  abbrev pub FitsOrderResult : OrderResult → Type 0
  FitsOrderResult m =
      (OnSome (λ x. FitsMoney w x × (length (encode_money w x) < 2 ^ 32)) m.shipping_cost)
      × (OnSome (λ x. (length (encode_address w x) < 2 ^ 32)) m.shipping_address)
      × (All (λ x. FitsOrderItem x × (length (encode_order_item w x) < 2 ^ 32)) m.items)

  pub Takes-order_result :
      (m : OrderResult)
      → FitsOrderResult m
      → Takes w (read_order_result w) (encode_order_result w m) base_order_result m
  unfolding encode_order_result read_order_result
  Takes-order_result m h =
      Takes-then w (read_order_result w)
        (Takes-then w (read_order_result w)
          (Takes-then w (read_order_result w)
            (Takes-then w (read_order_result w)
              (Takes-string w (read_order_result w) 10
                (λ v. record {
                  order_id = v;
                  shipping_tracking_id = "";
                  shipping_cost = none;
                  shipping_address = none;
                  items = [];
                })
                m.order_id (omega arith) (λ bs. refl))
              (Takes-string w (read_order_result w) 18
                (λ v. record {
                  order_id = m.order_id;
                  shipping_tracking_id = v;
                  shipping_cost = none;
                  shipping_address = none;
                  items = [];
                })
                m.shipping_tracking_id (omega arith) (λ bs. refl)))
            (Takes-message w (read_order_result w) (read_money w) (encode_money w) base_money 26
              (λ v. record {
                order_id = m.order_id;
                shipping_tracking_id = m.shipping_tracking_id;
                shipping_cost = v;
                shipping_address = none;
                items = [];
              })
              m.shipping_cost (omega arith) (λ x p. (Takes-money w x p.0, p.1)) h.0 (λ bs. refl)))
          (Takes-message w (read_order_result w) (read_address w) (encode_address w) base_address 34
            (λ v. record {
              order_id = m.order_id;
              shipping_tracking_id = m.shipping_tracking_id;
              shipping_cost = m.shipping_cost;
              shipping_address = v;
              items = [];
            })
            m.shipping_address (omega arith) (λ x p. (Takes-address x, p)) h.1 (λ bs. refl)))
        (Takes-messages w (read_order_result w) (read_order_item w) (encode_order_item w)
          base_order_item 42
          (λ v. record {
            order_id = m.order_id;
            shipping_tracking_id = m.shipping_tracking_id;
            shipping_cost = m.shipping_cost;
            shipping_address = m.shipping_address;
            items = v;
          })
          [] m.items (omega arith) (λ x p. (Takes-order_item x p.0, p.1)) h.2 (λ before bs. refl))

  pub decode_order_result-encode_order_result :
      (m : OrderResult)
      → FitsOrderResult m
      → decode_order_result w (encode_order_result w m) ≡ some m
  unfolding decode_order_result
  decode_order_result-encode_order_result m h =
      decode_all-Takes w (read_order_result w) (Takes-order_result m h)
