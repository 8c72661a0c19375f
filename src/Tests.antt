-- ===== src/Tests.antt =====
-- The theorems applied to concrete inputs.
mod Cleaner
mod Debounce
mod Auth
mod Clients
mod LiveQueries
mod Bolt
mod Responses
mod Model
mod Refresh
mod Resolvers
mod Json
mod Unstructured
mod Composites
mod Definitions
mod Tree
mod Handlers
mod Paths
mod Present
