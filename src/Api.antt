-- ===== src/Api.antt =====
-- The data of the API group glb.antware.xyz/v1alpha1 (api/v1alpha1/*_types.go), and of the
-- Kubernetes types that the operator's code reads or writes. Of a Kubernetes type only the fields
-- that the code touches are kept. An `int32` is its bit pattern, a number below 2 ^ 32. Named has objects
-- in a map under their own names.
mod Kube
mod Types
mod Cluster
mod Workloads
pub mod Words
pub mod Named
pub mod Objects
pub mod Scheme
unfoldable pub use Kube.*
pub use Types.*
pub use Cluster.*
pub use Workloads.*
