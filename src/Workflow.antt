-- ===== src/Workflow.antt =====
-- src/recallops/workflow.py: the incident workflow, its repositories and its coordinator.
pub mod Tests
pub mod States
pub mod Snapshot
pub mod Repository
pub mod InMemory
pub mod Coordinator
