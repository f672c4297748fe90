-- ===== src/Orders.antt =====
-- app/orders.py: the Orders API. What a dependency answer means, the idempotency store, the retry loop and
-- the life of a checkout; the proofs are in the modules below.
pub mod Upstream
pub mod Store
pub mod Checkout
pub mod Settings
mod Examples
