-- ===== src/Model.antt =====
-- internal/graph/model: the ids of resources, their order, and which type a resource is modelled as.
pub mod Id
pub mod Detect
pub mod Meta
pub mod Composites
pub mod Definitions
pub mod Plain
pub mod FieldPath
pub mod Package
