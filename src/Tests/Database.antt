-- ===== src/Tests/Database.antt =====
-- A database of one table that reads the numbers behind LIMIT and OFFSET, with its cache and ByIDs.
use thing.Prelude.{
  ℕ, zero, suc, ◌+◌, ◌-◌, ◌*◌, ◌/◌, ◌%◌, ◌<◌, ℤ, pos, Str, str, Bool, true, false, not, ◌&&◌,
  Option, none, some, List, [], ◌∷◌, ◌++◌, length, leb, ltb, if◌then◌else◌, take, drop, ◌≡◌, refl,
  sym, ap, append_nil_lem, ◌∙◌, arith, Bool-cases, inl, inr, All, eq_ℤ,
}
use thing.Query.{QueryParams}
use thing.SqlBuilder.{sqlite_dialector, build_select_ids_sql}
use thing.CachedResult.{CachedResult, Backend, live_clause}
use thing.CachedResult.Ids.{ids_statement, paged}
use thing.CachedResult.Pages.{Pages, Loads}
use thing.Tests.Data.{whole}
use thing.Prelude.Decimal.{print_ℤ, print_ℕ, digits_before}

-- The number at the front of a text, added to ten times the number before it, and the rest.
unfoldable read_number : ℕ → Str → ℕ × Str
read_number n [] = (n, [])
read_number n (c ∷ s) =
    let more = read_number (n * 10 + (c - 48)) s in
    if leb 48 c && leb c 57 then more else (n, c ∷ s)

read_digit :
    (m d : ℕ) (s : Str) → d < 10 → read_number m ((48 + d) ∷ s) ≡ read_number (m * 10 + d) s
unfolding read_number
read_digit m d s h =
    let low : leb 48 (48 + d) ≡ true = ground arith in
    let high : leb (48 + d) 57 ≡ true = ground (arith, h) in
    let digit : (48 + d) - 48 ≡ d = omega arith in rw (read_number, low, high, digit) refl

read-digits_before :
    (fuel n : ℕ) (tail : Str)
    → n < fuel
    → read_number 0 (digits_before fuel n tail) ≡ read_number n tail
unfolding digits_before
read-digits_before zero n tail h = absurd (omega (arith, h))
read-digits_before (suc fuel) n tail h = elim (Bool-cases (ltb n 10)) [
  | inl e ↦
      let small : n % 10 ≡ n = ground (arith, e) in
      let shift : 0 * 10 + n ≡ n = omega arith in
      rw (digits_before, e, small)
        (read_digit 0 n tail (ground (arith, e)) ∙ ap (λ k. read_number k tail) shift)
  | inr e ↦
      let whole : n / 10 * 10 + n % 10 ≡ n = omega arith in
      rw (digits_before, e)
        (read-digits_before fuel (n / 10) ((48 + n % 10) ∷ tail) (ground (arith, e, h))
          ∙ (read_digit (n / 10) (n % 10) tail (omega arith) ∙ ap (λ k. read_number k tail) whole))
]

digits_before-append :
    (fuel n : ℕ) (s tail : Str) → digits_before fuel n s ++ tail ≡ digits_before fuel n (s ++ tail)
unfolding digits_before
digits_before-append zero n s tail = refl
digits_before-append (suc fuel) n s tail = elim (Bool-cases (ltb n 10)) [
  | inl e ↦ rw (digits_before, e) refl
  | inr e ↦ rw (digits_before, e) (digits_before-append fuel (n / 10) ((48 + n % 10) ∷ s) tail)
]

read-print : (n : ℕ) (tail : Str) → read_number 0 (print_ℤ (pos n) ++ tail) ≡ read_number n tail
unfolding print_ℤ print_ℕ
read-print n tail =
    ap (read_number 0) (digits_before-append (suc n) n [] tail)
    ∙ read-digits_before (suc n) n tail (omega arith)

-- A text `LIMIT l OFFSET o` behind a prefix, read as a page of a list.
unfoldable read_offset : List ℤ → ℕ × Str → List ℤ
unfolding read_number
read_offset ids (limit, rest) = take limit (drop (read_number 0 (drop 8 rest)).0 ids)

unfoldable pub read_page : List ℤ → Str → List ℤ
unfolding read_offset
read_page ids text = read_offset ids (read_number 0 text)

read_end : (n : ℕ) → read_number n [] ≡ (n, [])
unfolding read_number
read_end n = refl

read_blank : (n : ℕ) (s : Str) → read_number n (str " OFFSET " ++ s) ≡ (n, str " OFFSET " ++ s)
unfolding read_number
read_blank n s = refl

read_page_lem :
    (ids : List ℤ) (offset limit : ℕ)
    → read_page ids (print_ℤ (pos limit) ++ (str " OFFSET " ++ print_ℤ (pos offset)))
      ≡ take limit (drop offset ids)
unfolding read_page read_offset
read_page_lem ids offset limit =
    let read = read-print limit (str " OFFSET " ++ print_ℤ (pos offset)) in
    let last : read_number 0 (print_ℤ (pos offset)) ≡ (offset, []) =
      ap (read_number 0) (sym (append_nil_lem (print_ℤ (pos offset))))
      ∙ read-print offset []
      ∙ read_end offset in
    ap (read_offset ids) (read ∙ read_blank limit _) ∙ ap (λ t. take limit (drop t.0 ids)) last

abbrev pub all_users : QueryParams
all_users = record {
  where_clause = [];
  args = [];
  order = [];
  preloads = [];
  include_deleted = false;
}

-- The text of the query, up to its limit.
abbrev pub select_users : Str
select_users = str "SELECT \"id\" FROM \"users\" WHERE \"deleted\" = false LIMIT "

-- A model is its identifier; the one of 2 is not kept where `custom` is true.
abbrev pub users : Bool → List ℤ → Backend Unit ℤ
users custom ids = record {
  table_name = str "users";
  pk_name = str "id";
  has_custom_keep_item = custom;
  keep_item = λ m. not (custom && eq_ℤ m (pos 2));
  dialector = sqlite_dialector;
  runtime = whole;
  max_capacity = 1000000;
  generate_cache_key = λ prefix table p. prefix;
  parse_int = λ s. none;
  cache_get = λ key s. (none, s);
  cache_get_query_ids = λ key s. (none, s);
  cache_set = λ key v s. s;
  cache_set_query_ids = λ key v s. s;
  cache_delete = λ key s. s;
  select_ids = λ text args. some (read_page ids (drop (length select_users) text));
  get_count = λ table clause args. some (pos (length ids));
  by_ids = λ xs preloads s. (some (λ id. some id), s);
}

pub users-Pages :
    (custom : Bool) (ids : List ℤ) (r : CachedResult ℤ)
    → r.params ≡ all_users
    → Pages (users custom ids) r ids
unfolding ids_statement paged live_clause build_select_ids_sql
users-Pages custom ids r e offset limit =
    simp (paged, ids_statement, live_clause, e) (ap some (read_page_lem ids offset limit))

agree : (xs : List ℤ) → All (λ id. ◌≡◌ {A = Option ℤ} (some id) (some id)) xs
agree [] = tt
agree (x ∷ xs) = (refl, agree xs)

pub users-Loads : (custom : Bool) (ids : List ℤ) → Loads (users custom ids) (λ id. some id)
users-Loads custom ids xs preloads s = (λ id. some id, (refl, agree xs))
