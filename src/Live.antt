-- ===== src/Live.antt =====
-- internal/live_query: the throttled loop of a live query, its JSON patches and its responses.
pub mod Debounce
pub mod Patch
pub mod Operation
pub mod Responses
