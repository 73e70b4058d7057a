-- ===== src/Fuse/Tests.antt =====
-- Runs of the mount on small inputs.
pub mod Around
mod Records
mod Listings
pub mod Nodes
pub mod Service
pub mod Handles
mod Caches
mod RangeRuns
mod Pending
