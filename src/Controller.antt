-- ===== src/Controller.antt =====
-- internal/controller: the reconcilers of the load balancers and of the frontends.
pub mod Ports
pub mod Frontends
pub mod Backends
pub mod Client
pub mod Config
pub mod Services
pub mod StatefulSets
pub mod Reconcile
pub mod Provisioned
pub mod Wiring
mod Tests
