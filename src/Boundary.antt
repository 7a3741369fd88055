-- ===== src/Boundary.antt =====
-- src/swimzh/boundary: the stored shape of the domain (Dto) and the maps to it and from it (mapping.py),
-- for schedules, lane plans, and what else a facility is made of.
pub mod ScheduleTokens
pub mod FacilityTokens
pub mod Dto
pub mod Schedules
pub mod Plans
pub mod Weekdays
pub mod Facilities
