-- ===== src/Wire/Product/Newer.antt =====
-- A product with fields that src/frontend/protos/demo.ts does not have.
use opentelemetry_demo_mb3r.Prelude.{
  ℕ, ◌*◌, ◌≤◌, ◌<◌, ◌≡◌, refl, false, some, List, ◌++◌, All, arith, eqb,
}
use opentelemetry_demo_mb3r.Proto.{Product}
use opentelemetry_demo_mb3r.Wire.{Bytes, Wire, other}
use opentelemetry_demo_mb3r.Wire.Reading.{Takes-then, decode_all-Takes}
use opentelemetry_demo_mb3r.Wire.Unknown.{Field, put_fields, IsSkipped, Takes-put_fields}
use opentelemetry_demo_mb3r.Wire.Product.{
  base_product, encode_product, read_product, decode_product,
}
use opentelemetry_demo_mb3r.Wire.Product.RoundTrip.{FitsProduct, Takes-product}

eqb-false : (a b : ℕ) → b < a → eqb a b ≡ false
eqb-false a b h = ground arith

read_product_unknown :
    (w : Wire) (tag : ℕ) (m : Product) (bs : Bytes) → 7 * 8 ≤ tag → read_product w tag m bs ≡ other
unfolding read_product
read_product_unknown w tag m bs h =
    rw
      (
        read_product,
        eqb-false tag 10 (omega arith),
        eqb-false tag 18 (omega arith),
        eqb-false tag 26 (omega arith),
        eqb-false tag 34 (omega arith),
        eqb-false tag 42 (omega arith),
        eqb-false tag 50 (omega arith),
      )
      refl

-- If a product's price is in range, then decoding its bytes gives the product, also with fields in
-- front of them and behind them whose numbers are higher than those of a product and which the
-- reader skips.
pub decode_product_newer :
    (w : Wire) (m : Product) (before after : List Field)
    → FitsProduct w m
    → All (IsSkipped w 7) before
    → All (IsSkipped w 7) after
    → decode_product w (put_fields w before ++ encode_product w m ++ put_fields w after) ≡ some m
unfolding decode_product
decode_product_newer w m before after fits h k = decode_all-Takes w (read_product w) (
    Takes-then w (read_product w)
      (Takes-then w (read_product w)
        (Takes-put_fields w (read_product w) 7 (read_product_unknown w) base_product before h)
        (Takes-product w m fits))
      (Takes-put_fields w (read_product w) 7 (read_product_unknown w) m after k))
