-- ===== src/Local/Cleanup.antt =====
-- The cleanup of localCache in cache.go, what Get returns after it, and the index after it.
use thing.Prelude.{
  ℕ, ◌≤◌, Str, str_eq, str_eq_iff, str_eq_refl, Bool, true, false, not, ◌&&◌, ◌≡◌, refl, sym, ap,
  Option, none, some, List, [], ◌∷◌, is_some, is_empty, arith, ◌∙◌, if◌then◌else◌, Bool-cases, inl,
  inr,
}
use thing.Prelude.Dict.{Dict, get, keys, mem_str, mem_str-keys, get-remove}
use thing.Query.{QueryParams}
use thing.Index.State.{CacheIndex, deregister_query, deregister_named}
use thing.Index.Lookup.{get_all_registered_keys}
use thing.Local.{
  Entry, text, bytes, LocalCache, passed, is_expired, remove_key, as_text, get_string, expired_keys,
  remove_keys, clean_store, deregister_stale, cleanup,
}

mem_str-expired_keys :
    (now : ℕ) (expiry : Dict ℕ) (k : Str) (ks : List Str)
    → mem_str k (expired_keys now expiry ks) ≡ (mem_str k ks && passed (get k expiry) now)
unfolding expired_keys mem_str
mem_str-expired_keys now expiry k [] = refl
mem_str-expired_keys now expiry k (key ∷ rest) = elim (Bool-cases (str_eq key k)) [
  | inl here ↦
      let same : key ≡ k = (str_eq_iff key k).0 here in
      rw same (ground (arith, mem_str-expired_keys now expiry k rest, str_eq_refl k))
  | inr there ↦ ground (arith, mem_str-expired_keys now expiry k rest)
]

get-remove_keys :
    (k : Str) (ks : List Str) (s : LocalCache)
    → get k (remove_keys ks s).store ≡ (if mem_str k ks then none else get k s.store)
unfolding remove_keys remove_key mem_str
get-remove_keys k [] s = refl
get-remove_keys k (key ∷ rest) s =
    ground (arith, get-remove_keys k rest (remove_key key s), get-remove key k s.store)

expiry-remove_keys :
    (k : Str) (ks : List Str) (s : LocalCache)
    → get k (remove_keys ks s).expiry_store ≡ (if mem_str k ks then none else get k s.expiry_store)
unfolding remove_keys remove_key mem_str
expiry-remove_keys k [] s = refl
expiry-remove_keys k (key ∷ rest) s =
    ground (arith, expiry-remove_keys k rest (remove_key key s), get-remove key k s.expiry_store)

passed-is_some : (o : Option ℕ) (now : ℕ) → (is_some o && passed o now) ≡ passed o now
unfolding passed
passed-is_some none now = refl
passed-is_some (some t) now = refl

passed_mono :
    (o : Option ℕ) (now later : ℕ) → now ≤ later → passed o now ≡ true → passed o later ≡ true
unfolding passed
passed_mono none now later h p = p
passed_mono (some t) now later h p = ground arith

-- The store after the cleanup, and the expiries.
get-clean_store :
    (now : ℕ) (k : Str) (s : LocalCache)
    → (get k (clean_store now s).store
        ≡ (if passed (get k s.expiry_store) now then none else get k s.store))
      × (get k (clean_store now s).expiry_store
          ≡ (if passed (get k s.expiry_store) now then none else get k s.expiry_store))
unfolding clean_store
get-clean_store now k s =
    let found = expired_keys now s.expiry_store (keys s.expiry_store) in
    let listed : mem_str k found ≡ passed (get k s.expiry_store) now =
      mem_str-expired_keys now s.expiry_store k (keys s.expiry_store)
      ∙ (ap (λ b. b && passed (get k s.expiry_store) now) (mem_str-keys k s.expiry_store)
          ∙ passed-is_some (get k s.expiry_store) now) in
    (get-remove_keys k found s ∙ rw listed refl, expiry-remove_keys k found s ∙ rw listed refl)

-- What Get returns, as a value.
found_text : Option Entry → Option Str
found_text (some (text v)) = some v
found_text _ = none

get_string-found :
    (now : ℕ) (k : Str) (s : LocalCache)
    → (get_string now k s).0
      ≡ (if passed (get k s.expiry_store) now then none else found_text (get k s.store))
unfolding get_string is_expired as_text found_text
get_string-found now k s = by_entry (get k s.store) refl
  where
    by_entry :
        (o : Option Entry)
        → get k s.store ≡ o
        → (get_string now k s).0
          ≡ (if passed (get k s.expiry_store) now then none else found_text o)
    by_entry none h = elim (Bool-cases (passed (get k s.expiry_store) now)) [
      | inl p ↦ rw (h, get_string, p) refl
      | inr n ↦ rw (h, get_string, n) refl
    ]
    by_entry (some (text v)) h = elim (Bool-cases (passed (get k s.expiry_store) now)) [
      | inl p ↦ rw (h, get_string, p) refl
      | inr n ↦ rw (h, get_string, n) refl
    ]
    by_entry (some (bytes v)) h = elim (Bool-cases (passed (get k s.expiry_store) now)) [
      | inl p ↦ rw (h, get_string, p) refl
      | inr n ↦ rw (h, get_string, n) refl
    ]

-- The removal of the expired keys at some time changes nothing that a Get at that time or later
-- returns.
pub get_string-clean_store :
    (now later : ℕ) (k : Str) (s : LocalCache)
    → now ≤ later
    → (get_string later k (clean_store now s)).0 ≡ (get_string later k s).0
unfolding found_text
get_string-clean_store now later k s h =
    let (kept, expiry) = get-clean_store now k s in
    elim (Bool-cases (passed (get k s.expiry_store) now)) [
      | inl p ↦
          get_string-found later k (clean_store now s)
          ∙ (rw (kept, expiry, p, passed_mono (get k s.expiry_store) now later h p)
                (unfold passed in refl)
              ∙ sym (get_string-found later k s))
      | inr n ↦
          get_string-found later k (clean_store now s)
          ∙ (rw (kept, expiry, n) refl ∙ sym (get_string-found later k s))
    ]

get-deregister_query :
    (key k : Str) (idx : CacheIndex)
    → is_empty k ≡ false
    → get k (deregister_query key idx).key_to_params
      ≡ (if str_eq key k then none else get k idx.key_to_params)
unfolding deregister_query deregister_named
get-deregister_query key k idx h = elim (Bool-cases (is_empty key)) [
  | inl e ↦
      let other : str_eq key k ≡ false = ground (arith, e, h, str_eq_iff key k) in
      rw (e, other) refl
  | inr n ↦ rw n (get-remove key k idx.key_to_params)
]

get-deregister_stale :
    (store : Dict Entry) (k : Str) (ks : List Str) (idx : CacheIndex)
    → is_empty k ≡ false
    → get k (deregister_stale store ks idx).key_to_params
      ≡ (if mem_str k ks && not (is_some (get k store)) then none else get k idx.key_to_params)
unfolding deregister_stale mem_str
get-deregister_stale store k [] idx h = refl
get-deregister_stale store k (key ∷ rest) idx h =
    let by : Bool → Option QueryParams = λ b.
      get k
        (deregister_stale store rest (if b then idx else deregister_query key idx)).key_to_params in
    elim (Bool-cases (is_some (get key store))) [
      | inl e ↦ ap by e ∙ ground (arith, get-deregister_stale store k rest idx h, str_eq_iff key k)
      | inr n ↦
          ap by n
          ∙ ground (
            arith,
            get-deregister_stale store k rest (deregister_query key idx) h,
            get-deregister_query key k idx h,
            str_eq_iff key k,
          )
    ]

-- After a round of the cleanup, the index has the parameters of a key that is not empty just when the
-- store still holds the key, and then those that it had.
pub cleanup_index :
    (now : ℕ) (k : Str) (s : LocalCache) (idx : CacheIndex)
    → is_empty k ≡ false
    → get k (cleanup now (s, idx)).1.key_to_params
      ≡ (if is_some (get k (cleanup now (s, idx)).0.store) then get k idx.key_to_params else none)
unfolding cleanup get_all_registered_keys
cleanup_index now k s idx h =
    let store = (clean_store now s).store in
    ground (
      arith,
      get-deregister_stale store k (keys idx.key_to_params) idx h,
      mem_str-keys k idx.key_to_params,
    )
