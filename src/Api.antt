-- ===== src/Api.antt =====
-- The API routes of the frontend's server, one module for each file of src/frontend/pages/api.
pub mod Cart
pub mod Checkout
pub mod Products
pub mod Recommendations
pub mod Data
pub mod Currency
pub mod ProductReviews
pub mod Shipping
pub mod Routes
