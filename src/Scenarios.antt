-- ===== src/Scenarios.antt =====
-- Concrete inputs: tests of the definitions by evaluation, and the theorems at inputs that meet their
-- hypotheses.
mod Limits
mod Partitions
mod Runs
mod Plans
mod Files
mod Steps
mod Access
mod Mail
mod Retries
mod Messages
mod People
mod Factors
mod Listings
mod Queries
mod Knobs
