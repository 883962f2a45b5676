-- ===== src/Local.antt =====
-- localCache of cache.go, the cache client in memory. Time is a count of nanoseconds; each operation
-- takes the time that it reads. A sync.Map is an association list. Values are the strings of Set
-- and the encoded bytes of SetQueryIDs.
pub mod Lookup
pub mod Cleanup
use thing.Prelude.{
  ℕ, zero, suc, ◌+◌, ℤ, pos, negsuc, Str, str, str_eq, Bool, true, false, not, ◌&&◌, Option, none,
  some, List, [], ◌∷◌, is_some, ltb, if◌then◌else◌,
}
use thing.Prelude.Dict.{Dict, get, get_or, put, remove, keys}
use thing.Index.State.{CacheIndex, deregister_query}
use thing.Index.Lookup.{get_all_registered_keys}

pub data Entry : Type 0 where
  text bytes : Str → Entry

-- localCache, without its locks and the handle of its goroutine
pub record LocalCache : Type 0 where
  pub store : Dict Entry
  pub expiry_store : Dict ℕ
  pub counters : Dict ℕ

-- incrCounter
unfoldable pub incr_counter : Str → LocalCache → LocalCache
unfolding put get_or
incr_counter name s = record s { counters = put name (get_or name s.counters 0 + 1) s.counters }

unfoldable pub passed : Option ℕ → ℕ → Bool
passed none now = false
passed (some t) now = ltb t now

-- isExpired
unfoldable pub is_expired : ℕ → Str → LocalCache → Bool
unfolding passed get
is_expired now key s = passed (get key s.expiry_store) now

unfoldable pub remove_key : Str → LocalCache → LocalCache
unfolding remove
remove_key key s = record s { store = remove key s.store; expiry_store = remove key s.expiry_store }

-- The time at which a value expires, if it does.
unfoldable pub deadline : ℤ → ℕ → Option ℕ
deadline (pos zero) now = none
deadline (pos (suc n)) now = some (now + suc n)
deadline (negsuc n) now = none

unfoldable pub set_expiry : Str → Option ℕ → LocalCache → LocalCache
unfolding put remove
set_expiry key none s = record s { expiry_store = remove key s.expiry_store }
set_expiry key (some t) s = record s { expiry_store = put key t s.expiry_store }

unfoldable pub store_entry : Str → Entry → Option ℕ → LocalCache → LocalCache
unfolding put set_expiry
store_entry key e expiry s = set_expiry key expiry (record s { store = put key e s.store })

unfoldable pub as_text : Entry → LocalCache → Option Str × LocalCache
unfolding incr_counter
as_text (text v) s = (some v, incr_counter (str "GetHit") s)
as_text (bytes b) s = (none, incr_counter (str "GetMiss") s)

-- Get: none where the source returns ErrNotFound
unfoldable pub get_string : ℕ → Str → LocalCache → Option Str × LocalCache
unfolding get incr_counter is_expired remove_key as_text
get_string now key s =
    let t = incr_counter (str "Get") s in
    elim (get key s.store) [
      | none ↦ (none, incr_counter (str "GetMiss") t)
      | some e ↦
          if is_expired now key s
          then (none, incr_counter (str "GetExpired") (remove_key key t))
          else as_text e t
    ]

-- common.NoneResult
abbrev pub none_result : Str
none_result = str "__thing_none__"

unfoldable is_none_result : Option Entry → Bool
unfolding str_eq
is_none_result (some (text v)) = str_eq v none_result
is_none_result _ = false

-- Set
unfoldable pub set_string : ℕ → Str → Str → ℤ → LocalCache → LocalCache
unfolding get incr_counter is_none_result store_entry deadline str_eq
set_string now key value expiration s =
    let t = incr_counter (str "Set") s in
    let u = if str_eq value none_result then incr_counter (str "SetNoneResult") t else t in
    if str_eq value none_result && is_none_result (get key s.store)
    then t
    else store_entry key (text value) (deadline expiration now) u

-- Delete, DeleteQueryIDs and DeleteModel, by the name of the counter
unfoldable pub delete : Str → Str → LocalCache → LocalCache
unfolding incr_counter remove_key
delete counter key s = remove_key key (incr_counter counter s)

-- Exists
unfoldable exists : ℕ → Str → LocalCache → Bool × LocalCache
unfolding get incr_counter is_expired remove_key
exists now key s =
    let t = incr_counter (str "Exists") s in
    if is_some (get key s.store) && is_expired now key s
    then (false, remove_key key t)
    else (is_some (get key s.store), t)

-- Expire: whether the key is there, and the state after it
unfoldable expire : ℕ → Str → ℤ → LocalCache → Bool × LocalCache
unfolding get incr_counter set_expiry deadline
expire now key expiration s =
    let t = incr_counter (str "Expire") s in
    if is_some (get key s.store)
    then (true, set_expiry key (deadline expiration now) t)
    else (false, t)

-- encoding/gob on a list of identifiers
pub record Codec : Type 0 where
  pub encode : List ℤ → Str
  pub decode : Str → Option (List ℤ)

-- What GetQueryIDs returns: a list, ErrNotFound, or another error.
pub data IdsResult : Type 0 where
  ids : List ℤ → IdsResult
  not_found not_bytes not_decoded : IdsResult

unfoldable pub decoded : Option (List ℤ) → LocalCache → IdsResult × LocalCache
unfolding incr_counter
decoded none s = (not_decoded, s)
decoded (some xs) s = (ids xs, incr_counter (str "GetQueryIDsHit") s)

unfoldable pub as_ids : Codec → Entry → LocalCache → IdsResult × LocalCache
unfolding decoded incr_counter
as_ids codec (text v) s = (not_bytes, incr_counter (str "GetQueryIDsError") s)
as_ids codec (bytes b) s = decoded (codec.decode b) s

-- GetQueryIDs
unfoldable pub get_query_ids : Codec → ℕ → Str → LocalCache → IdsResult × LocalCache
unfolding get incr_counter is_expired remove_key as_ids
get_query_ids codec now key s =
    let t = incr_counter (str "GetQueryIDs") s in
    elim (get key s.store) [
      | none ↦ (not_found, incr_counter (str "GetQueryIDsMiss") t)
      | some e ↦
          if is_expired now key s
          then (not_found, incr_counter (str "GetQueryIDsExpired") (remove_key key t))
          else as_ids codec e t
    ]

-- SetQueryIDs, for identifiers that gob encodes
unfoldable pub set_query_ids : Codec → ℕ → Str → List ℤ → ℤ → LocalCache → LocalCache
unfolding incr_counter store_entry deadline
set_query_ids codec now key xs expiration s =
    store_entry key (bytes (codec.encode xs)) (deadline expiration now)
      (incr_counter (str "SetQueryIDs") s)

-- One round of cleanupExpiredKeys: the expired keys among some.
unfoldable pub expired_keys : ℕ → Dict ℕ → List Str → List Str
unfolding passed get
expired_keys now expiry [] = []
expired_keys now expiry (key ∷ rest) =
    let found = expired_keys now expiry rest in
    if passed (get key expiry) now then key ∷ found else found

unfoldable pub remove_keys : List Str → LocalCache → LocalCache
unfolding remove_key
remove_keys [] s = s
remove_keys (key ∷ rest) s = remove_keys rest (remove_key key s)

unfoldable pub clean_store : ℕ → LocalCache → LocalCache
unfolding expired_keys remove_keys keys
clean_store now s = remove_keys (expired_keys now s.expiry_store (keys s.expiry_store)) s

-- The registered keys that are no longer in the store are deregistered.
unfoldable pub deregister_stale : Dict Entry → List Str → CacheIndex → CacheIndex
unfolding get deregister_query
deregister_stale store [] idx = idx
deregister_stale store (key ∷ rest) idx =
    deregister_stale store rest (if is_some (get key store) then idx else deregister_query key idx)

-- One round of cleanupExpiredKeys
unfoldable pub cleanup : ℕ → LocalCache × CacheIndex → LocalCache × CacheIndex
unfolding clean_store deregister_stale get_all_registered_keys
cleanup now (s, idx) =
    let t = clean_store now s in (t, deregister_stale t.store (get_all_registered_keys idx) idx)
