-- ===== src/Examples.antt =====
-- The theorems applied to concrete stores, listings and criteria.
mod Store
mod Lives
mod Stops
mod Listings
mod Batches
mod Decisions
mod Tracker
mod Employers
mod Feedback
