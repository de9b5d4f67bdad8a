-- ===== src/Tests.antt =====
-- A cluster in memory and test doubles of the other libraries (`Tests/Cluster`), and the theorems at
-- concrete resources.
pub mod Cluster
pub mod Samples
pub mod ClusterGuards
mod DefinitionTests
mod HubTests
mod MergeTests
mod SpecificationTests
mod SystemTests
mod ManagerTests
