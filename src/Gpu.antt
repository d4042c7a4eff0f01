-- ===== src/Gpu.antt =====
-- The package gpu: scheduling of GPUs by product model.
pub mod Types
pub mod Alloc
pub mod Realloc
pub mod Resource
pub mod Store
pub mod Plugin
pub mod Queries
pub mod Metrics
pub mod Histories
pub mod Fixing
mod Examples
pub mod HistoryExamples
