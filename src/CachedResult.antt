-- ===== src/CachedResult.antt =====
-- The state and the chainable builders of query.go. The cache client, the database and ByIDs, which
-- a result reaches through its Thing, are given by what their calls return, with the state of
-- the cache before and after. An error that the source only logs is `none`.
pub mod Ids
pub mod Count
pub mod Fetch
pub mod Pages
pub mod Scan
pub mod Listed
pub mod Rounds
pub mod Loops
pub mod Steady
pub mod Bounds
pub mod Parts
pub mod Complete
use thing.Prelude.{
  ℕ, zero, ℤ, pos, Str, str, Bool, true, false, not, Option, none, some, List, [], ◌∷◌, ◌++◌,
  is_empty, if◌then◌else◌,
}
use thing.Query.{QueryParams}
use thing.Value.{Value, Runtime}
use thing.SqlBuilder.{Dialector}
use thing.Index.State.{CacheIndex}

-- The errors that query.go returns; `out_of_fuel` is of the model alone, and `panicked` is a
-- run-time panic.
pub data QueryError : Type 0 where
  not_initialized count_failed ids_failed no_such_model out_of_fuel panicked : QueryError
  broken : Str → QueryError

pub data Answer (A : Type 0) : Type 0 where
  value : A → Answer A
  failed : QueryError → Answer A

-- CachedResult; `initialized` stands for the tests of thing, cache and db against nil
pub record CachedResult (M : Type 0) : Type 0 where
  pub initialized : Bool
  pub params : QueryParams
  pub cached_ids : List ℤ
  pub cached_count : ℤ
  pub has_loaded_ids : Bool
  pub has_loaded_count : Bool
  pub has_loaded_all : Bool
  pub all_models : List M
  pub init_error : Option Str

-- Thing, its model information, and what it calls; `max_capacity` is the largest capacity that make
-- takes for a slice of models, above which it panics.
pub record Backend (S M : Type 0) : Type 0 where
  pub table_name : Str
  pub pk_name : Str
  pub has_custom_keep_item : Bool
  pub keep_item : M → Bool
  pub dialector : Dialector
  pub runtime : Runtime
  pub max_capacity : ℕ
  pub generate_cache_key : Str → Str → QueryParams → Str
  pub parse_int : Str → Option ℤ
  pub cache_get : Str → S → Option Str × S
  pub cache_get_query_ids : Str → S → Option (List ℤ) × S
  pub cache_set : Str → Str → S → S
  pub cache_set_query_ids : Str → List ℤ → S → S
  pub cache_delete : Str → S → S
  pub select_ids : Str → List Value → Option (List ℤ)
  pub get_count : Str → Str → List Value → Option ℤ
  pub by_ids : List ℤ → List Str → S → Option (ℤ → Option M) × S

-- A result, the cache and the index of its queries.
pub record World (S M : Type 0) : Type 0 where
  pub result : CachedResult M
  pub cache : S
  pub index : CacheIndex

abbrev no_params : QueryParams
no_params = record {
  where_clause = [];
  args = [];
  order = [];
  preloads = [];
  include_deleted = false;
}

-- The reset of the loaded state that the builders share.
unfoldable reset_loaded : {M : Type 0} → CachedResult M → CachedResult M
reset_loaded r = record r {
  has_loaded_count = false;
  has_loaded_ids = false;
  cached_ids = [];
  cached_count = pos 0;
  has_loaded_all = false;
  all_models = [];
}

-- Query
unfoldable pub query : {M : Type 0} → QueryParams → CachedResult M
query params = record {
  initialized = true;
  params = params;
  cached_ids = [];
  cached_count = pos 0;
  has_loaded_ids = false;
  has_loaded_count = false;
  has_loaded_all = false;
  all_models = [];
  init_error = none;
}

-- WithDeleted
unfoldable with_deleted : {M : Type 0} → CachedResult M → CachedResult M
unfolding reset_loaded
with_deleted r = reset_loaded (record r { params = record r.params { include_deleted = true } })

-- Where
unfoldable where_query : {M : Type 0} → Str → List Value → CachedResult M
unfolding query
where_query clause args = query (record no_params { where_clause = clause; args = args })

unfoldable with_where : {M : Type 0} → Str → List Value → CachedResult M → CachedResult M
unfolding reset_loaded
with_where clause args r =
    reset_loaded (record r { params = record r.params { where_clause = clause; args = args } })

-- Order
unfoldable order_query : {M : Type 0} → Str → CachedResult M
unfolding query
order_query order = query (record no_params { order = order })

unfoldable with_order : {M : Type 0} → Str → CachedResult M → CachedResult M
unfolding reset_loaded
with_order order r = reset_loaded (record r { params = record r.params { order = order } })

-- Preload
unfoldable preload_query : {M : Type 0} → List Str → CachedResult M
unfolding query
preload_query preloads = query (record no_params { preloads = preloads })

unfoldable with_preload : {M : Type 0} → List Str → CachedResult M → CachedResult M
unfolding reset_loaded
with_preload preloads r =
    reset_loaded
      (record r { params = record r.params { preloads = r.params.preloads ++ preloads } })

-- The clause of a query and the test that no row is deleted softly.
unfoldable pub live_clause : QueryParams → Str
live_clause p =
    if p.include_deleted
    then p.where_clause
    else if is_empty p.where_clause
    then str "\"deleted\" = false"
    else str "(" ++ (p.where_clause ++ str ") AND \"deleted\" = false")
