-- ===== src/Lib.antt =====
-- Parts of thing, an object-relational mapper for Go: its query cache (which cached queries a change of
-- a row concerns, and which of them are deleted), the SQL that it builds, the results that it pages
-- through the cache and the database, and the options of its JSON output.
--
-- A query is a WHERE clause with arguments and an order. Its result, a list of identifiers or a count,
-- is cached under a key that starts with "list:", "count:" or "count_precise:". RegisterQuery
-- (internal/cache/index.go) remembers for the key the columns on which the query depends. After a row
-- is saved or deleted, invalidateAffectedQueryCaches (cache.go) asks GetInvalidationContext for the
-- keys that the changed columns concern, evaluates each query's predicate (query_match.go) on the new
-- and on the old row, and deletes the keys whose result changes.
--
-- The files and the code:
--   Prelude       strings as lists of bytes, integers, maps as association lists, tests
--   Value         Go's interface{} values as far as the cache sees them, with the conversions of
--                 package reflect; Value/Equality is about reflect.DeepEqual
--   Query         QueryParams of internal/types/types.go, errors and results
--   Predicate     internal/cache/query_predicate.go: Token and Scan are the tokenizer
--                 (tokenizeWhere), Cursor and Parser the parser (parseQueryPredicate), Node the
--                 predicates with Match, Fields and ExactMatches
--   Match         internal/cache/query_match.go: Like, Compare, Members and Condition are matchLike,
--                 compareValues, checkInOperator, and matchPredicateCondition with CheckQueryMatch
--   Index         internal/cache/index.go: Legacy is the fallback for clauses that do not parse,
--                 Order is ParseOrderFields, Nested the maps of maps of sets, State is CacheIndex
--                 with RegisterQuery and DeregisterQuery, Lookup the look-ups with
--                 GetInvalidationContext
--   Invalidate    cache.go: Columns is changedModelColumns and its like, Tasks is phase 1 of
--                 invalidateAffectedQueryCaches for one key, Run the four phases
--   Local         cache.go: localCache, the cache in memory, with the cleanup that deregisters the
--                 keys that it no longer holds
--   SqlBuilder    internal/sqlbuilder/sqlbuilder.go and the dialects of drivers/db: ExpandInClauses,
--                 Rebind and the statements; Marks counts the placeholders
--   CachedResult  query.go: Ids is _fetch_ids_from_db and _fetch_data, Count is Count and CountPrecise,
--                 Fetch is Fetch, All and First; Pages is what the database and ByIDs promise, and which
--                 rows a query shows
--   Json          json.go: the options of the JSON output with ParseFieldsDSL and mergeJSONOptions
--   Objects       crud.go: fetchModelsByIDsInternal and byIDInternal, the rows by their identifiers
--   OrderedMap    internal/utils/orderedmap.go
--   Tests         concrete runs
--
-- A Go function with the name camelCase is the definition camel_case; a handler that Go splits by a
-- switch is a few definitions. A Go map is an association list whose order stands for the order of
-- `range`. A row is the list of its fields by Go name. The index is a value that each operation
-- returns; its mutex makes an operation one step. The cache client is given by what its calls return
-- for each key, and a run lists the keys that are deleted.
--
-- A run-time panic is a value. The test of a row panics where it compares with a nil argument by order;
-- nothing recovers that, so the run of invalidateAffectedQueryCaches ends in its first phase, with the
-- deletions done so far and none of its tasks. Fetch panics for a limit or an offset that make or a
-- slice does not take.
--
-- The tokenizer and the loops of the parser recurse on fuel: one more than the bytes of the clause,
-- and one more than the tokens that are left. Each round uses up a byte or a token, so the fuel is
-- enough.
--
-- Fetch recurses on fuel: the length of the cached list and the count of the query, and two more; a
-- round reads at least one identifier. countByFullScan, whose loop the source does not bound, takes
-- its fuel as an argument.
--
-- ParseFieldsDSL takes its fuel as an argument, since its loop does not always end. The loop over the
-- batches of identifiers has the number of the missing identifiers as its fuel; a batch takes at
-- least one.
--
-- Parameters: Objects.ObjectSource is the cache of models and the database. CachedResult.Backend is
-- what a result reaches through its Thing: the cache, the database, and ByIDs, whose part without
-- preloads stands in Objects, and the largest capacity that make takes. OrderedMap takes json.Marshal as an argument.
-- Value.Runtime is the parsing, printing, order and conversion of floats, and fmt's
-- default format of a value, of which nothing is assumed, and which is a function of the value: the
-- address that the verb %v prints of a pointer stands for what it points to; Local.Codec is encoding/gob on a list of
-- identifiers, which is assumed, where a theorem says so, to decode what it encoded.
--
-- Not modelled: logging, contexts and locks; the reflection that fills the metadata of a model, named
-- types, maps, functions and structs other than time.Time as field values; the models, locks and
-- counter keys of the local cache; the Redis client; the writing of rows (crud.go) and
-- relationships.go; the walk over structs of the JSON output (json.go); the schema and the drivers.
pub mod Prelude
pub mod Value
pub mod Query
pub mod Predicate
pub mod Match
pub mod Index
pub mod Invalidate
pub mod Local
pub mod SqlBuilder
pub mod CachedResult
pub mod Json
pub mod Objects
pub mod OrderedMap
mod Tests
