-- ===== src/Catalog.antt =====
-- src/frontend/services/ProductCatalog.service.ts: products with their prices in the currency of
-- the visitor. The proofs are in Catalog/Prices.antt.
pub mod Prices
pub mod Reads
pub mod Counts
use opentelemetry_demo_mb3r.Prelude.{
  String, Bool, ◌&&◌, not, Option, some, List, map, ◌==◌, if◌then◌else◌,
}
use opentelemetry_demo_mb3r.Proto.{Money, Product}
use opentelemetry_demo_mb3r.Promise.{Promise, resolved, ◌>>=◌}
use opentelemetry_demo_mb3r.Promise.All.{all}
use opentelemetry_demo_mb3r.Gateways

abbrev pub default_currency_code : String
default_currency_code = "USD"

-- `!!currencyCode && currencyCode !== defaultCurrencyCode`.
unfoldable pub needs_conversion : String → Bool
needs_conversion currency_code =
    not (currency_code == "") && not (currency_code == default_currency_code)

unfoldable pub get_product_price : Option Money → String → Promise (Option Money)
unfolding needs_conversion Gateways.Currency.convert
get_product_price price currency_code =
    if needs_conversion currency_code
    then (Gateways.Currency.convert price currency_code >>= λ converted. resolved (some converted))
    else resolved price

-- `{ ...product, priceUsd }`.
unfoldable pub price_product : String → Product → Promise Product
unfolding get_product_price
price_product currency_code product = get_product_price product.price_usd currency_code >>= λ price.
    resolved (record product { price_usd = price })

unfoldable pub list_products : String → Promise (List Product)
unfolding price_product Gateways.ProductCatalog.list_products
list_products currency_code = Gateways.ProductCatalog.list_products >>= λ product_list.
    all (map (price_product currency_code) product_list)

unfoldable pub get_product : String → String → Promise Product
unfolding price_product Gateways.ProductCatalog.get_product
get_product id currency_code =
    Gateways.ProductCatalog.get_product id >>= price_product currency_code
