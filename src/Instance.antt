-- ===== src/Instance.antt =====
-- src/petrus/impetus/instance: what an instance records and rebuilds.
pub mod Firing
pub mod Lifecycle
pub mod Activity
pub mod Runtime
