-- ===== src/Query.antt =====
-- src/swimzh/domain/query.py: the query surface. The types and the parameters are in Types, the live
-- readings in Live, the seasonal and schedule-less statuses in Statuses, the loops in Visit, the
-- answer in Search.
pub mod Types
pub mod Live
pub mod Statuses
pub mod Visit
pub mod Search
pub mod Totality
pub mod Options
pub mod Answer
pub mod Codes
pub mod Roster
