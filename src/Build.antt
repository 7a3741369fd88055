-- ===== src/Build.antt =====
-- src/swimzh/build: how the facts of several sources become one gold document per pool.
pub mod Reconcile
pub mod Bindings
pub mod Compose
