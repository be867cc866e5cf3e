-- ===== src/Witnesses.antt =====
-- Concrete inputs at which the theorems of the other modules apply.
pub mod Sections
pub mod Epochs
pub mod Exports
pub mod Cycles
pub mod Windows
pub mod Filters
pub mod Phases
pub mod Topics
pub mod Dirs
pub mod Loading
