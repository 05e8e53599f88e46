-- ===== src/Tests.antt =====
-- Runs of the definitions and the theorems at concrete data.
mod Paths
mod Sessions
mod Listings
mod Configs
mod Handles
mod Uploads
mod Downloads
mod Transfers
mod Programs
mod Effects
mod Trees
mod RoundTrips
