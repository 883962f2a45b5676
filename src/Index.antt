-- ===== src/Index.antt =====
-- internal/cache/index.go: which cached queries a change of a table may affect.
-- Legacy: the fallback for clauses that the parser refuses. Order: ORDER BY clauses. Nested: maps
-- of maps of sets. State: CacheIndex, its operations and its look-ups.
pub mod Legacy
pub mod Order
pub mod Nested
pub mod State
pub mod Lookup
pub mod Registered
pub mod Depends
pub mod Monotone
pub mod Complete
pub mod Deregister
pub mod Context
