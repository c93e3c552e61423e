-- ===== src/Tests.antt =====
-- The theorems at concrete inputs, over the shop of Fixtures.antt.
mod Cart
mod Client
mod Checkout
mod Catalog
mod Pages
mod Requests
mod Payment
mod Provider
mod Wire
mod Assistant
mod Mobile
