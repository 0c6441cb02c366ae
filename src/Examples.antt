-- ===== src/Examples.antt =====
-- Concrete inputs, on which the theorems of the other modules are applied and the definitions run.
pub mod Fixtures
mod Quiet
pub mod Throttling
pub mod Scaling
pub mod Policies
pub mod Cluster
pub mod Waiting
pub mod Reconciling
pub mod Startups
mod Scraping
mod Freezes
mod Resumes
pub mod Waits
