-- ===== src/Tests/Results.antt =====
-- Results of query.go over a table of users.
use thing.Prelude.{
  ℕ, suc, ℤ, pos, true, false, some, List, [], ◌∷◌, iota, map, take, drop, ◌≡◌, refl, arith, eq_ℤ,
  if◌then◌else◌,
}
use thing.Index.State.{new_cache_index, register_query}
use thing.Prelude.Decimal.{print_ℤ}
use thing.SqlBuilder.{build_select_ids_sql}
use thing.CachedResult.{Answer, value, failed, CachedResult, World, query}
use thing.CachedResult.Ids.{fetch_data}
use thing.CachedResult.Count.{count_by_full_scan}
use thing.CachedResult.Fetch.{fetch, fetch_all, kept_model}
use thing.CachedResult.Scan.{count_by_full_scan_lem}
use thing.CachedResult.Listed.{fetch_data_lem, stored}
use thing.CachedResult.Bounds.{fetch_bounds, limit_of}
use thing.CachedResult.Parts.{AllFound}
use thing.CachedResult.Loops.{unfit, Fetched}
use thing.CachedResult.Complete.{fetch_page, fetch_all_lem, HasLoaded}
use thing.Tests.Database.{users, all_users, users-Pages, users-Loads, read_page}

abbrev three : List ℤ
three = pos 1 ∷ pos 2 ∷ pos 3 ∷ []

abbrev many : List ℤ
many = map pos (iota 1 201)

abbrev fresh : CachedResult ℤ
unfolding query
fresh = query all_users

abbrev start : World Unit ℤ
start = record { result = fresh; cache = tt; index = new_cache_index }

count_by_full_scan_lem_example : (count_by_full_scan (users true three) fresh 4 0 0 tt).0 ≡ value 2
unfolding query
count_by_full_scan_lem_example =
    count_by_full_scan_lem (users true three) fresh three (λ id. some id) refl
      (users-Pages true three fresh refl) (users-Loads true three) 4 tt (omega arith)

fetch_data_lem_example :
    (s : Unit) × (fetch_data (users true three) start
      ≡ (value (pos 1 ∷ pos 3 ∷ []), stored (users true three) start (pos 1 ∷ pos 3 ∷ []) s))
unfolding query
fetch_data_lem_example =
    fetch_data_lem (users true three) start three (λ id. some id) refl refl
      (users-Pages true three fresh refl) (users-Loads true three) (omega arith)

fetch_bounds_example :
    Fetched
      (users true three)
      all_users
      (limit_of (users true three) (pos 2))
      (unfit (users true three) (pos 1) (pos 2))
      (fetch (users true three) (pos 1) (pos 2) start).0
unfolding query
fetch_bounds_example = fetch_bounds (users true three) (pos 1) (pos 2) start

-- A result that has loaded the first 200 of 201 users, and their count.
abbrev loaded : World Unit ℤ
loaded = record start {
  result = record fresh {
    cached_ids = take 200 many;
    has_loaded_ids = true;
    cached_count = pos 201;
    has_loaded_count = true;
  };
}

all_found :
    (xs : List ℤ)
    → AllFound
        (users false many)
        (λ id. id)
        (kept_model (users false many) loaded.result (λ id. some id))
        xs
unfolding kept_model query
all_found [] = tt
all_found (x ∷ xs) = (refl, all_found xs)

loaded-HasLoaded : HasLoaded (users false many) (λ id. id) many loaded.result
unfolding query
loaded-HasLoaded = record {
  ready = refl;
  no_error = refl;
  list_loaded = refl;
  count_loaded = refl;
  list_lem = refl;
  count_lem = refl;
}

fetch_page_example :
    (fetch (users false many) (pos 150) (pos 60) loaded).0
    ≡ value (map (λ id. id) (take 60 (drop 150 many)))
fetch_page_example =
    fetch_page (users false many) (λ id. id) many (λ id. some id) loaded 150 60 loaded-HasLoaded
      (users-Pages false many loaded.result (unfold query in refl)) (users-Loads false many)
      (all_found many)

fetch_all_lem_example : (fetch_all (users false many) loaded).0 ≡ value (map (λ id. id) many)
unfolding query
fetch_all_lem_example =
    fetch_all_lem (users false many) (λ id. id) many (λ id. some id) loaded refl loaded-HasLoaded
      (users-Pages false many loaded.result refl) (users-Loads false many) (all_found many)

unfoldable occurrences : ℤ → List ℤ → ℕ
occurrences x [] = 0
occurrences x (y ∷ ys) = if eq_ℤ x y then suc (occurrences x ys) else occurrences x ys

unfoldable answered : Answer (List ℤ) → List ℤ
answered (value xs) = xs
answered (failed e) = []

-- A row that is not kept shifts the cached list against the offsets of the database.
repeated : occurrences (pos 201) (answered (fetch (users true many) (pos 0) (pos 201) start).0) ≡ 2
unfolding occurrences answered fetch query register_query print_ℤ read_page build_select_ids_sql
repeated = refl
