-- ===== src/Package/Dag.antt =====
-- The dependency graph of a package: `Dag::for_root_package` (src/package/dag.rs).
-- The graph is a value of the library petgraph, which enters as the interface `AcyclicGraph`.
pub mod Graph
pub mod Dependencies
pub mod Build
