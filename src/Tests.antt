-- ===== src/Tests.antt =====
-- Concrete inputs, runs of the modelled code, and each theorem at an input.
mod Data
mod Eligibility
mod Windows
mod Days
mod LanePlans
mod Search
mod Details
mod Identities
mod Stored
mod Built
mod Fetched
mod Refreshed
