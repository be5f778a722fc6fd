-- ===== src/Git.antt =====
-- krennic/internal/gitxport.
pub mod Diff
pub mod Lines
pub mod Refs
pub mod Shadow
pub mod Index
pub mod Excluded
pub mod Tree
pub mod Withheld
pub mod Process
pub mod Atoi
pub mod Version
pub mod Porcelain
mod ProcessExamples
mod Examples
pub mod Samples
mod ShadowExamples
pub mod Gc
pub mod GcKept
pub mod GcForeign
pub mod GcRoots
mod GcExamples
