-- ===== src/Collector.antt =====
-- internal/collector: the phases of one collection cycle.
pub mod GoError
pub mod Limits
pub mod Section
pub mod Merge
pub mod Request
pub mod Wire
pub mod Epoch
pub mod Options
pub mod Finalize
pub mod Phases
pub mod Kadm
pub mod Topics
pub mod Offsets
pub mod Throughput
pub mod LogDirs
pub mod Configs
pub mod Groups
pub mod ShareGroups
pub mod Filter
pub mod Reassign
