-- ===== src/Control.antt =====
-- The controllers and the scheduler: pkg/controller and pkg/scheduler.
pub mod Autoscaler
pub mod ReplicaSet
pub mod Scheduler
mod Tests
