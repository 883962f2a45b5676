-- ===== src/Json.antt =====
-- The options of json.go: JSONOptions, ParseFieldsDSL and mergeJSONOptions. The bytes 44, 45, 123 and
-- 125 are ',', '-', '{' and '}'.
pub mod Hangs
pub mod Fields
pub mod Items
pub mod Merge
use thing.Prelude.{
  ℕ, zero, suc, ◌+◌, ◌-◌, Str, trim_space, trim_prefix, has_prefix, str_eq, equal_fold, str, Bool,
  true, false, not, ◌&&◌, ◌||◌, Option, none, some, List, [], ◌∷◌, ◌++◌, any, map, is_empty, ◌==◌,
  if◌then◌else◌,
}
use thing.SqlBuilder.{join}

-- FieldRule and JSONOptions; a map is the list of its entries.
mutual
  pub data JsonOptions : Type 0 where
    json_options : FieldRules → List Str → NestedRules → JsonOptions

  pub data FieldRules : Type 0 where
    no_fields : FieldRules
    field_rule : Str → NestedOptions → FieldRules → FieldRules

  pub data NestedOptions : Type 0 where
    absent : NestedOptions
    present : JsonOptions → NestedOptions

  pub data NestedRules : Type 0 where
    no_nested : NestedRules
    nested_rule : Str → JsonOptions → NestedRules → NestedRules

-- newJSONOptions
abbrev pub new_json_options : JsonOptions
new_json_options = json_options no_fields [] no_nested

-- contains
unfoldable pub contains : List Str → Str → Bool
unfolding equal_fold
contains names item = any (λ s. equal_fold s item) names

unfoldable pub has_field : Str → FieldRules → Bool
unfolding str_eq
has_field name no_fields = false
has_field name (field_rule n o rules) = str_eq n name || has_field name rules

unfoldable pub append_field : FieldRules → Str → NestedOptions → FieldRules
append_field no_fields name o = field_rule name o no_fields
append_field (field_rule n p rules) name o = field_rule n p (append_field rules name o)

-- A name joins the included ones, if it is not one of them.
unfoldable pub include_field : Str → NestedOptions → JsonOptions → JsonOptions
unfolding has_field append_field
include_field name o (json_options fields excluded nested) =
    if has_field name fields
    then json_options fields excluded nested
    else json_options (append_field fields name o) excluded nested

-- A name joins the excluded ones, unless it is empty or one of them.
unfoldable pub exclude_field : Str → JsonOptions → JsonOptions
unfolding contains
exclude_field name (json_options fields excluded nested) =
    if not (is_empty name) && not (contains excluded name)
    then json_options fields (excluded ++ (name ∷ [])) nested
    else json_options fields excluded nested

unfoldable has_nested : Str → NestedRules → Bool
unfolding str_eq
has_nested name no_nested = false
has_nested name (nested_rule n o rules) = str_eq n name || has_nested name rules

-- NestedRules[name] is set, unless it is there.
unfoldable store_nested : Str → JsonOptions → JsonOptions → JsonOptions
unfolding has_nested
store_nested name o (json_options fields excluded nested) =
    if is_empty name || has_nested name nested
    then json_options fields excluded nested
    else json_options fields excluded (nested_rule name o nested)

unfoldable pub is_separator : ℕ → Bool
is_separator c = (c == 32) || (c == 44)

unfoldable pub skip_separators : Str → Str
unfolding is_separator
skip_separators [] = []
skip_separators (c ∷ s) = if is_separator c then skip_separators s else c ∷ s

unfoldable pub ends_field : ℕ → Bool
ends_field c = (c == 44) || ((c == 123) || (c == 125))

abbrev push : ℕ → Str × Str → Str × Str
push c p = (c ∷ p.0, p.1)

-- The bytes up to a comma or a brace, and the rest.
unfoldable pub split_field : Str → Str × Str
unfolding ends_field
split_field [] = ([], [])
split_field (c ∷ s) =
    let more = push c (split_field s) in if ends_field c then ([], c ∷ s) else more

-- What stands behind an opening brace.
unfoldable pub inside : Str → Option Str
inside [] = none
inside (c ∷ s) = if c == 123 then some s else none

abbrev push_inside : ℕ → Option (Str × Str) → Option (Str × Str)
push_inside c none = none
push_inside c (some p) = some (push c p)

-- The bytes up to the brace that closes `n` open ones, and those behind it.
unfoldable close_brace : ℕ → Str → Option (Str × Str)
close_brace n [] = none
close_brace n (c ∷ s) =
    let more = close_brace (if c == 123 then suc n else if c == 125 then n - 1 else n) s in
    if (c == 125) && (n == 1) then some ([], s) else push_inside c more

-- A name without braces, and one with options in braces.
unfoldable pub plain_field : Str → JsonOptions → JsonOptions
unfolding include_field exclude_field has_prefix trim_prefix
plain_field field o =
    if has_prefix field (str "-")
    then exclude_field (trim_prefix field (str "-")) o
    else include_field field absent o

unfoldable nested_field : Str → JsonOptions → JsonOptions → JsonOptions
unfolding include_field exclude_field store_nested has_prefix trim_prefix
nested_field field nested o =
    if has_prefix field (str "-")
    then (let name = trim_prefix field (str "-") in exclude_field name (store_nested name nested o))
    else include_field field (present nested) (store_nested field nested o)

-- The options, the error of the source, or an end of the fuel.
pub data Parsed : Type 0 where
  parsed : JsonOptions → Parsed
  unmatched out_of_fuel : Parsed

unfoldable then_parsed : (JsonOptions → Parsed) → Parsed → Parsed
then_parsed k (parsed o) = k o
then_parsed k unmatched = unmatched
then_parsed k out_of_fuel = out_of_fuel

-- A field behind its name.
unfoldable pub field_round : (Str → JsonOptions → Parsed) → Str → Str → JsonOptions → Parsed
unfolding inside close_brace plain_field nested_field then_parsed skip_separators
field_round again field rest o = elim (inside rest) [
  | none ↦ again (skip_separators rest) (plain_field field o)
  | some content ↦ elim (close_brace 1 content) [
    | none ↦ unmatched
    | some (body, after) ↦
        then_parsed (λ nested. again (skip_separators after) (nested_field field nested o))
          (again body new_json_options)
  ]
]

-- A round behind the name, which is empty where the round starts at a brace.
unfoldable pub name_round : (Str → JsonOptions → Parsed) → JsonOptions → Str × Str → Parsed
unfolding trim_space field_round
name_round again o (name, rest) =
    let field = trim_space name in
    elim (is_empty field) [ true ↦ again rest o | false ↦ field_round again field rest o ]

-- A round of the loop, from the first byte that is no separator.
unfoldable pub parse_round : (Str → JsonOptions → Parsed) → Str → JsonOptions → Parsed
unfolding split_field name_round
parse_round again [] o = parsed o
parse_round again (c ∷ s) o = name_round again o (split_field (c ∷ s))

-- The loop of ParseFieldsDSL and its calls of itself, from a position on.
unfoldable pub parse : ℕ → Str → JsonOptions → Parsed
unfolding parse_round skip_separators
parse zero input o = out_of_fuel
parse (suc fuel) input o = parse_round (parse fuel) (skip_separators input) o

-- ParseFieldsDSL
unfoldable pub parse_fields_dsl : ℕ → Str → Parsed
unfolding parse
parse_fields_dsl fuel dsl = parse fuel dsl new_json_options

-- The first part of mergeJSONOptions: the rules of `src` whose names are new.
unfoldable pub merge_fields : FieldRules → FieldRules → FieldRules
unfolding has_field append_field
merge_fields dst no_fields = dst
merge_fields dst (field_rule name o src) =
    merge_fields (if has_field name dst then dst else append_field dst name o) src

-- The rules whose names, without regard to case, were not seen before; `id` stands for idSeen.
unfoldable pub remove_duplicates : Bool → List Str → FieldRules → FieldRules
unfolding equal_fold contains
remove_duplicates id seen no_fields = no_fields
remove_duplicates id seen (field_rule name o rules) =
    let kept =
      field_rule name o
        (remove_duplicates (id || equal_fold name (str "id")) (name ∷ seen) rules) in
    let dropped = remove_duplicates id seen rules in
    if (if equal_fold name (str "id") then id else contains seen name) then dropped else kept

unfoldable merge_excluded : List Str → List Str → List Str
unfolding str_eq
merge_excluded dst [] = dst
merge_excluded dst (name ∷ src) =
    merge_excluded (if any (λ s. str_eq s name) dst then dst else dst ++ (name ∷ [])) src

-- mergeJSONOptions; the rules of nested fields of `src` are not merged
unfoldable pub merge_json_options : JsonOptions → JsonOptions → JsonOptions
unfolding merge_fields remove_duplicates merge_excluded
merge_json_options (json_options fields excluded nested)
      (json_options more_fields more_excluded more_nested) =
    json_options (remove_duplicates false [] (merge_fields fields more_fields))
      (merge_excluded excluded more_excluded) nested

unfoldable merge_parsed : JsonOptions → Parsed → JsonOptions
unfolding merge_json_options
merge_parsed o (parsed src) = merge_json_options o src
merge_parsed o unmatched = o
merge_parsed o out_of_fuel = o

-- Include
unfoldable pub include : ℕ → List Str → JsonOptions → JsonOptions
unfolding parse_fields_dsl merge_parsed join
include fuel fields o =
    if is_empty fields then o else merge_parsed o (parse_fields_dsl fuel (join (44 ∷ []) fields))

-- Exclude
unfoldable pub exclude : ℕ → List Str → JsonOptions → JsonOptions
unfolding parse_fields_dsl merge_parsed join has_prefix
exclude fuel fields o =
    let dashed = map (λ f. if has_prefix f (str "-") then f else 45 ∷ f) fields in
    if is_empty fields then o else merge_parsed o (parse_fields_dsl fuel (join (44 ∷ []) dashed))

-- withFieldsDSL
unfoldable with_fields_dsl : ℕ → Str → JsonOptions → JsonOptions
unfolding parse_fields_dsl merge_parsed
with_fields_dsl fuel dsl o = merge_parsed o (parse_fields_dsl fuel dsl)
