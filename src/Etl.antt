-- ===== src/Etl.antt =====
-- src/swimzh/etl: the steps of the pipeline that decide, apart from fetching and parsing.
pub mod Sheets
pub mod Roster
