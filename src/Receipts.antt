-- ===== src/Receipts.antt =====
-- src/recallops/receipts.py: what a receipt is built from.
pub mod Requests
pub mod Tests
pub mod Prefix
pub mod Bindings
