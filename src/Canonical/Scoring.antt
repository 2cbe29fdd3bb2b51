-- ===== src/Canonical/Scoring.antt =====
-- scoring.ts: an attempt is scored from its snapshot and the answers given. The definitions stand in
-- `Groups`, `Correct`, `Alignment` and `Attempt`; the other children prove.
pub mod Groups
pub mod Correct
pub mod Alignment
pub mod Attempt
pub mod Partition
pub mod Counts
pub mod Compared
pub mod Bounds
pub mod Means
pub mod Bands
pub mod Flags
