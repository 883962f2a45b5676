-- ===== src/Tests/Objects.antt =====
-- Rows read by their identifiers: the cache holds the row 1 and a marker for the row 2.
use thing.Prelude.{
  ℤ, pos, negsuc, eq_ℤ, eq_ℤ_iff, Str, str, Bool, true, false, ◌||◌, Option, none, some, List, [],
  ◌∷◌, map, All, ◌==◌, if◌then◌else◌, ◌≡◌, refl, arith, Bool-cases, inl, inr, ◌⊎◌,
}
use thing.SqlBuilder.{sqlite_dialector}
use thing.Objects.{
  ModelRead, hit, none_result, not_found, ObjectSource, fetch_models_by_ids, by_ids_query,
}
use thing.Objects.Reads.{Answers, done, hits, marked, misses}
use thing.Objects.Rows.{StoredRow, has_row, Selects}
use thing.Objects.Sound.{fetch_models_by_ids-AllRead, AllRead}

abbrev absent_row : ℤ → Bool
absent_row id = eq_ℤ id (pos 0) || eq_ℤ id (pos 2)

abbrev rows : ℤ → Option ℤ
rows id = if absent_row id then none else some id

abbrev key_of : ℤ → Str
key_of (pos n) = n ∷ []
key_of (negsuc n) = []

abbrev answer : Str → ModelRead ℤ
answer [] = not_found
answer (n ∷ s) = if n == 1 then hit (pos 1) else (if n == 2 then none_result else not_found)

abbrev present : List ℤ → List ℤ
present [] = []
present (id ∷ ids) = if absent_row id then present ids else id ∷ present ids

abbrev table : ObjectSource Unit ℤ
table = record {
  has_cache = true;
  table_name = str "users";
  pk_name = str "id";
  columns = str "id" ∷ [];
  dialector = sqlite_dialector;
  generate_cache_key = key_of;
  get_id = λ m. m;
  as_stored = λ m. m;
  mget_model = λ keys s. (map answer keys, s);
  set_model = λ key m s. s;
  set_none_result = λ key s. s;
  select_models = λ text ids. some (present ids);
}

remembers : (ids : List ℤ) → Answers table rows ids (map answer (map key_of ids))
remembers [] = done
remembers (negsuc n ∷ ids) = misses (remembers ids)
remembers (pos n ∷ ids) = elim (Bool-cases (n == 1)) [
  | inl e ↦ let one : n ≡ 1 = ground (arith, e) in rw one (hits refl (remembers ids))
  | inr e ↦ elim (Bool-cases (n == 2)) [
    | inl f ↦ let two : n ≡ 2 = ground (arith, f) in rw two (marked refl (remembers ids))
    | inr f ↦ rw (e, f) (misses (remembers ids))
  ]
]

stored_rows : (ids : List ℤ) → All (StoredRow table rows) (present ids)
stored_rows [] = tt
stored_rows (id ∷ ids) = elim (Bool-cases (absent_row id)) [
  | inl e ↦ rw e (stored_rows ids)
  | inr e ↦
      let zero_free : eq_ℤ id (pos 0) ≡ false = ground (arith, e) in
      rw e ((zero_free, rw e refl), stored_rows ids)
]

has_present :
    (id : ℤ) (ids : List ℤ)
    → absent_row id ≡ false
    → has_row table rows id (present (id ∷ ids)) ≡ true
has_present id ids e = let same = (eq_ℤ_iff id id).1 refl in ground (arith, e, same)

present_more :
    (id k : ℤ) (ids : List ℤ)
    → has_row table rows id (present ids) ≡ true
    → has_row table rows id (present (k ∷ ids)) ≡ true
present_more id k ids h = ground (arith, h)

rows_complete :
    (done_ids ids : List ℤ)
    → ((id : ℤ)
        → has_row table rows id (present ids) ≡ true
        → has_row table rows id (present done_ids) ≡ true)
    → All (λ id. (rows id ≡ none) ⊎ (has_row table rows id (present done_ids) ≡ true)) ids
rows_complete done_ids [] h = tt
rows_complete done_ids (id ∷ ids) h =
    let rest = rows_complete done_ids ids (λ x e. h x (present_more x id ids e)) in
    elim (Bool-cases (absent_row id)) [
      | inl e ↦ (inl (rw e refl), rest)
      | inr e ↦ (inr (h id (has_present id ids e)), rest)
    ]

table-Selects : Selects table rows
table-Selects ids = (present ids, (refl, (stored_rows ids, rows_complete ids ids (λ id e. e))))

abbrev asked : List ℤ
asked = pos 1 ∷ pos 2 ∷ pos 7 ∷ []

fetch_models_by_ids-AllRead_example :
    AllRead table rows (fetch_models_by_ids table asked tt).0 asked
fetch_models_by_ids-AllRead_example =
    fetch_models_by_ids-AllRead table rows asked tt (λ ids s. remembers ids) table-Selects

-- The row 1 comes from the cache, and the row 7 from the database.
read_rows : (fetch_models_by_ids table asked tt).0 ≡ (pos 7, pos 7) ∷ (pos 1, pos 1) ∷ []
unfolding fetch_models_by_ids
read_rows = refl

query_text : by_ids_query table asked ≡ str "SELECT \"id\" FROM \"users\" WHERE \"id\" IN (?,?,?)"
unfolding by_ids_query
query_text = refl
