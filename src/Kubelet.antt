-- ===== src/Kubelet.antt =====
-- The kubelet: pkg/kubelet.
pub mod Types
pub mod PodManager
pub mod Cache
pub mod Pleg
pub mod PodWorkers
pub mod Status
pub mod Server
pub mod Sync
pub mod Tests
mod ScheduleTests
