-- ===== src/Ledger.antt =====
-- src/recallops/ledger.py: the append-only authority ledger.
pub mod Tests
pub mod Event
pub mod Repository
pub mod InMemory
pub mod Receipts
