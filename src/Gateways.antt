-- ===== src/Gateways.antt =====
-- The gateways to the services, one module for each file of src/frontend/gateways/rpc and
-- src/frontend/gateways/http. A method of an rpc gateway is a stub's call as a promise.
pub mod Ad
pub mod Cart
pub mod Checkout
pub mod Currency
pub mod ProductCatalog
pub mod ProductReview
pub mod Recommendations
pub mod Shipping
