-- ===== src/Tests.antt =====
-- Tests of the definitions on concrete inputs, and the theorems at inputs that meet their
-- hypotheses.
mod Data
mod Queries
mod Keys
mod Changes
mod Panics
mod Cached
mod Statements
mod Database
mod Results
mod Options
mod Objects
mod Ordered
