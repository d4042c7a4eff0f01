-- ===== src/Storage.antt =====
-- The package storage: scheduling of volumes, disk quota and storage space.
pub mod Volumes
pub mod Disk
pub mod Node
pub mod Binding
pub mod Schedule
pub mod Workload
pub mod Calculate
pub mod Usage
pub mod Plugin
pub mod Parse
pub mod Queries
pub mod Metrics
mod Examples
pub mod HistoryExamples
mod ScheduleExamples
mod VerbExamples
