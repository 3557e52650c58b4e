-- ===== src/Service.antt =====
-- src/recallops/service.py and src/recallops/sandbox.py.
pub mod Tests
pub mod Approval
pub mod Sandbox
