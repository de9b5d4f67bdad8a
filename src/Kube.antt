-- ===== src/Kube.antt =====
-- Kubernetes as the controllers see it: the API types with the fields that the controllers read or
-- write (`Meta`, `Workload`), and the libraries that they call (`Client`). None of this is code of the
-- repository: the types follow the CRDs under config/base/crd/bases, the operations are parameters.
pub mod Meta
pub mod Workload
pub mod Client
pub mod Guards
pub mod Laws
