-- ===== src/Local/Lookup.antt =====
-- What localCache of cache.go returns after a value is set.
use thing.Prelude.{
  ℕ, zero, suc, ◌+◌, ltb, ℤ, pos, negsuc, Bool, Str, str, str_eq, str_eq_refl, false, ◌≡◌, refl,
  Option, none, some, List, ◌∙◌, if◌then◌else◌, Bool-cases, inl, inr,
}
use thing.Prelude.Dict.{get, get-put, get-remove}
use thing.Local.{
  Entry, text, bytes, LocalCache, incr_counter, passed, is_expired, deadline, set_expiry,
  store_entry, as_text, get_string, none_result, set_string, Codec, ids, not_found, decoded, as_ids,
  get_query_ids, set_query_ids,
}

get-store_entry :
    (key : Str) (e : Entry) (expiry : Option ℕ) (s : LocalCache)
    → get key (store_entry key e expiry s).store ≡ some e
unfolding store_entry set_expiry
get-store_entry key e none s = get-put key key e s.store ∙ rw (str_eq_refl key) refl
get-store_entry key e (some t) s = get-put key key e s.store ∙ rw (str_eq_refl key) refl

expiry-store_entry :
    (key : Str) (e : Entry) (expiry : Option ℕ) (s : LocalCache)
    → get key (store_entry key e expiry s).expiry_store ≡ expiry
unfolding store_entry set_expiry
expiry-store_entry key e none s = get-remove key key s.expiry_store ∙ rw (str_eq_refl key) refl
expiry-store_entry key e (some t) s = get-put key key t s.expiry_store ∙ rw (str_eq_refl key) refl

-- What Get returns for a key, by the entry and its expiry.
get_string_lem :
    (now : ℕ) (key : Str) (s : LocalCache) (v : Str)
    → get key s.store ≡ some (text v)
    → (get_string now key s).0 ≡ (if passed (get key s.expiry_store) now then none else some v)
unfolding get_string is_expired as_text
get_string_lem now key s v h = elim (Bool-cases (passed (get key s.expiry_store) now)) [
  | inl p ↦ rw (h, get_string, p) refl
  | inr n ↦ rw (h, get_string, n) refl
]

get_query_ids_lem :
    (codec : Codec) (now : ℕ) (key : Str) (s : LocalCache) (xs : List ℤ)
    → codec.decode (codec.encode xs) ≡ some xs
    → get key s.store ≡ some (bytes (codec.encode xs))
    → (get_query_ids codec now key s).0
      ≡ (if passed (get key s.expiry_store) now then not_found else ids xs)
unfolding get_query_ids is_expired as_ids decoded
get_query_ids_lem codec now key s xs d h = elim (Bool-cases (passed (get key s.expiry_store) now)) [
  | inl p ↦ rw (h, get_query_ids, p) refl
  | inr n ↦ rw (h, get_query_ids, n, d) refl
]

-- Whether a value that was set at a time, with an expiration, is expired at another: an expiration
-- above zero lasts as long as it says, and one that is not never ends.
abbrev pub expired : ℤ → ℕ → ℕ → Bool
expired (pos zero) now later = false
expired (pos (suc n)) now later = ltb (now + suc n) later
expired (negsuc n) now later = false

passed-deadline :
    (expiration : ℤ) (now later : ℕ)
    → passed (deadline expiration now) later ≡ expired expiration now later
unfolding passed deadline
passed-deadline (pos zero) now later = refl
passed-deadline (pos (suc n)) now later = refl
passed-deadline (negsuc n) now later = refl

-- After Set of a value other than NoneResult with an expiration above zero, Get of the key returns
-- the value up to the time at which it was set and the expiration later, and nothing behind that
-- time; with any other expiration, Get returns the value at every time.
pub set_string-get_string :
    (now later : ℕ) (key value : Str) (expiration : ℤ) (s : LocalCache)
    → str_eq value none_result ≡ false
    → (get_string later key (set_string now key value expiration s)).0
      ≡ (if expired expiration now later then none else some value)
unfolding set_string
set_string-get_string now later key value expiration s h = rw h (
    get_string_lem later key _ value
      (get-store_entry key (text value) (deadline expiration now) (incr_counter (str "Set") s))
    ∙ rw
        (
          expiry-store_entry key (text value) (deadline expiration now)
              (incr_counter (str "Set") s),
          passed-deadline expiration now later,
        )
        refl)

-- After SetQueryIDs of identifiers that the codec decodes from what it encodes, with an expiration
-- above zero, GetQueryIDs of the key returns them up to the time at which they were set and the
-- expiration later, and ErrNotFound behind that time; with any other expiration, it returns them at
-- every time.
pub set_query_ids-get_query_ids :
    (codec : Codec) (now later : ℕ) (key : Str) (xs : List ℤ) (expiration : ℤ) (s : LocalCache)
    → codec.decode (codec.encode xs) ≡ some xs
    → (get_query_ids codec later key (set_query_ids codec now key xs expiration s)).0
      ≡ (if expired expiration now later then not_found else ids xs)
unfolding set_query_ids
set_query_ids-get_query_ids codec now later key xs expiration s d =
    get_query_ids_lem codec later key _ xs d (
      get-store_entry key (bytes (codec.encode xs)) (deadline expiration now)
        (incr_counter (str "SetQueryIDs") s))
    ∙ rw
        (
          expiry-store_entry key (bytes (codec.encode xs)) (deadline expiration now)
              (incr_counter (str "SetQueryIDs") s),
          passed-deadline expiration now later,
        )
        refl
