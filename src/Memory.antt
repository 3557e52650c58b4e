-- ===== src/Memory.antt =====
-- Governed memory: src/recallops/store.py and the memories of src/recallops/domain.py.
pub mod Tests
pub mod Record
pub mod Version
pub mod Governance
pub mod Store
