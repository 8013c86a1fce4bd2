-- ===== src/Examples.antt =====
-- Small inputs at which the theorems' hypotheses hold, and runs of the code on them.
pub mod Orders
pub mod DeltaBundle
pub mod Transfer
pub mod Caching
pub mod Traces
pub mod Cataloging
pub mod Ranking
pub mod Setup
pub mod Mounting
pub mod Pulling
pub mod Snapshots
pub mod Extracting
pub mod Fetching
