-- ===== src/ApiServer.antt =====
-- The API server, pkg/kubeapiserver: the store and the handlers of each kind of object.
pub mod Etcd
pub mod Act
pub mod Keys
pub mod Pods
pub mod Bitmaps
pub mod Services
pub mod DnsNames
pub mod Nodes
pub mod ReplicaSets
pub mod Scaling
pub mod Mesh
pub mod Rollouts
pub mod Store
pub mod Refusals
mod Pools
pub mod Creations
pub mod MapStore
mod Tests
mod ServiceTests
mod RefusalTests
