-- ===== src/Resolvers.antt =====
-- internal/graph/resolvers: reads of resources and their relations, events, and mutations.
pub mod Objects
pub mod Connections
pub mod Composed
pub mod Tree
pub mod Events
pub mod Mutation
pub mod Queries
pub mod Packages
pub mod Definitions
pub mod Defined
pub mod Owners
pub mod References
