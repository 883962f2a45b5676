-- ===== src/Predicate.antt =====
-- internal/cache/query_predicate.go: the WHERE clauses that the query cache understands.
-- Token: tokens and their classes. Scan: the tokenizer. Cursor, Parser: the recursive descent parser.
-- Node: the predicates, their evaluation, fields and exact matches.
pub mod Token
pub mod Scan
pub mod Node
pub mod Cursor
pub mod Parser
pub mod Arguments
pub mod Failing
pub mod Errors
pub mod Fields
