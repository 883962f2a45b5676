-- ===== src/Tests/Cached.antt =====
-- The local cache on concrete calls.
use thing.Prelude.{
  ℤ, pos, negsuc, Str, str, str_eq, none, some, List, [], ◌∷◌, ◌≡◌, refl, is_some, arith,
  if◌then◌else◌,
}
use thing.Prelude.Dict.{get}
use thing.Local.{
  LocalCache, text, get_string, set_string, Codec, not_found, get_query_ids, set_query_ids,
  clean_store, cleanup,
}
use thing.Local.Lookup.{set_string-get_string, set_query_ids-get_query_ids}
use thing.Local.Cleanup.{get_string-clean_store, cleanup_index}
use thing.Tests.Data.{adults_index, adults_key}

abbrev empty_cache : LocalCache
empty_cache = record { store = []; expiry_store = []; counters = [] }

-- One value that expires at 5.
abbrev expiring : LocalCache
expiring = record {
  store = (str "a", text (str "x")) ∷ [];
  expiry_store = (str "a", 5) ∷ [];
  counters = [];
}

-- A codec for lists of naturals: one byte each.
abbrev encode_ids : List ℤ → Str
encode_ids [] = []
encode_ids (pos n ∷ xs) = n ∷ encode_ids xs
encode_ids (negsuc n ∷ xs) = encode_ids xs

abbrev decode_ids : Str → List ℤ
decode_ids [] = []
decode_ids (n ∷ s) = pos n ∷ decode_ids s

abbrev byte_codec : Codec
byte_codec = record { encode = encode_ids; decode = λ s. some (decode_ids s) }

set_string-get_string_example :
    (get_string 14 (str "a") (set_string 10 (str "a") (str "x") (pos 5) empty_cache)).0
    ≡ some (str "x")
unfolding str_eq
set_string-get_string_example =
    set_string-get_string 10 14 (str "a") (str "x") (pos 5) empty_cache refl

set_query_ids-get_query_ids_example :
    (get_query_ids byte_codec 16 adults_key
      (set_query_ids byte_codec 10 adults_key (pos 7 ∷ pos 8 ∷ []) (pos 5) empty_cache)).0
    ≡ not_found
set_query_ids-get_query_ids_example =
    set_query_ids-get_query_ids byte_codec 10 16 adults_key (pos 7 ∷ pos 8 ∷ []) (pos 5) empty_cache
      refl

get_string-clean_store_example :
    (get_string 7 (str "a") (clean_store 6 expiring)).0 ≡ (get_string 7 (str "a") expiring).0
get_string-clean_store_example = get_string-clean_store 6 7 (str "a") expiring (omega arith)

cleanup_index_example : get adults_key (cleanup 6 (expiring, adults_index)).1.key_to_params ≡ (
    if is_some (get adults_key (cleanup 6 (expiring, adults_index)).0.store)
    then get adults_key adults_index.key_to_params
    else none)
cleanup_index_example = cleanup_index 6 adults_key expiring adults_index refl
