-- ===== src/Match.antt =====
-- internal/cache/query_match.go: whether a row satisfies a condition. Like: LIKE patterns.
-- Compare: the four orders. Members: IN. Condition: the operators together.
pub mod Like
pub mod Compare
pub mod Members
pub mod Condition
