-- ===== src/Json/Items.antt =====
-- ParseFieldsDSL of json.go on included and excluded names.
use thing.Prelude.{
  ℕ, ◌<◌, Str, str, str_eq, equal_fold, has_prefix, trim_prefix, Bool, false, ◌||◌, List, [], ◌∷◌,
  ◌++◌, any, map, length, is_empty, ◌≡◌, refl, ap, ◌∙◌, arith, All, append_assoc, append_nil_lem,
}
use thing.SqlBuilder.{join}
use thing.Json.{
  json_options, FieldRules, no_fields, field_rule, absent, no_nested, new_json_options, parsed,
  has_field, append_field, include_field, exclude_field, contains, plain_field, parse_fields_dsl,
}
use thing.Json.Fields.{Name, add_names, parse_names}

-- A field of the text: a name that is included, or one that is excluded by a dash.
pub data Item : Type 0 where
  with_name without_name : Str → Item

abbrev item_text : Item → Str
item_text (with_name name) = name
item_text (without_name name) = 45 ∷ name

abbrev pub included : List Item → List Str
included [] = []
included (with_name name ∷ items) = name ∷ included items
included (without_name name ∷ items) = included items

abbrev pub excluded : List Item → List Str
excluded [] = []
excluded (with_name name ∷ items) = excluded items
excluded (without_name name ∷ items) = name ∷ excluded items

-- Some text for an excluded name; none that starts with a dash for an included one.
abbrev ItemName : Item → Type 0
ItemName (with_name name) = has_prefix name (str "-") ≡ false
ItemName (without_name name) = is_empty name ≡ false

-- No two names of a list are the same.
abbrev Distinct : (Str → Str → Bool) → List Str → Type 0
Distinct same [] = Unit
Distinct same (name ∷ names) = (any (same name) names ≡ false) × Distinct same names

-- The rules of fields without options.
abbrev rules_of : List Str → FieldRules
rules_of [] = no_fields
rules_of (name ∷ names) = field_rule name absent (rules_of names)

any-middle :
    (p : Str → Bool) (xs : List Str) (n : Str) (ys : List Str)
    → any p (xs ++ (n ∷ ys)) ≡ false
    → p n ≡ false
any-middle p [] n ys h = ground (arith, h)
any-middle p (x ∷ xs) n ys h = any-middle p xs n ys (ground (arith, h))

-- A name is none of those before it.
before_lem :
    (same : Str → Str → Bool) (xs : List Str) (n : Str) (ys : List Str)
    → Distinct same (xs ++ (n ∷ ys))
    → any (λ x. same x n) xs ≡ false
before_lem same [] n ys h = refl
before_lem same (x ∷ xs) n ys h =
    ground (arith, any-middle (same x) xs n ys h.0, before_lem same xs n ys h.1)

has_field-rules_of :
    (n : Str) (xs : List Str) → has_field n (rules_of xs) ≡ any (λ x. str_eq x n) xs
unfolding has_field
has_field-rules_of n [] = refl
has_field-rules_of n (x ∷ xs) = ap (λ b. str_eq x n || b) (has_field-rules_of n xs)

append_field-rules_of :
    (n : Str) (xs : List Str) → append_field (rules_of xs) n absent ≡ rules_of (xs ++ (n ∷ []))
unfolding append_field
append_field-rules_of n [] = refl
append_field-rules_of n (x ∷ xs) = ap (field_rule x absent) (append_field-rules_of n xs)

include_lem :
    (n : Str) (xs ys : List Str)
    → has_prefix n (str "-") ≡ false
    → any (λ x. str_eq x n) xs ≡ false
    → plain_field n (json_options (rules_of xs) ys no_nested)
      ≡ json_options (rules_of (xs ++ (n ∷ []))) ys no_nested
unfolding plain_field include_field
include_lem n xs ys plain fresh =
    rw (plain, has_field-rules_of n xs, fresh, append_field-rules_of n xs) refl

exclude_lem :
    (n : Str) (rules : FieldRules) (ys : List Str)
    → is_empty n ≡ false
    → any (λ y. equal_fold y n) ys ≡ false
    → plain_field (45 ∷ n) (json_options rules ys no_nested)
      ≡ json_options rules (ys ++ (n ∷ [])) no_nested
unfolding plain_field exclude_field contains has_prefix trim_prefix
exclude_lem n rules ys given fresh = rw (given, fresh) refl

add_items :
    (items : List Item) (xs ys : List Str)
    → All ItemName items
    → Distinct str_eq (xs ++ included items)
    → Distinct equal_fold (ys ++ excluded items)
    → add_names (map item_text items) (json_options (rules_of xs) ys no_nested)
      ≡ json_options (rules_of (xs ++ included items)) (ys ++ excluded items) no_nested
unfolding add_names
add_items [] xs ys h d e = rw (append_nil_lem xs, append_nil_lem ys) refl
add_items (with_name n ∷ items) xs ys h d e =
    let shift = append_assoc xs (n ∷ []) (included items) in
    ap (add_names (map item_text items))
      (include_lem n xs ys h.0 (before_lem str_eq xs n (included items) d))
    ∙ (add_items items (xs ++ (n ∷ [])) ys h.1 (rw shift d) e
        ∙ ap (λ l. json_options (rules_of l) (ys ++ excluded items) no_nested) shift)
add_items (without_name n ∷ items) xs ys h d e =
    let shift = append_assoc ys (n ∷ []) (excluded items) in
    ap (add_names (map item_text items))
      (exclude_lem n (rules_of xs) ys h.0 (before_lem equal_fold ys n (excluded items) e))
    ∙ (add_items items xs (ys ++ (n ∷ [])) h.1 d (rw shift e)
        ∙ ap (λ l. json_options (rules_of (xs ++ included items)) l no_nested) shift)

length-map_items : (items : List Item) → length (map item_text items) ≡ length items
length-map_items [] = refl
length-map_items (i ∷ items) = omega (arith, length-map_items items)

-- ParseFieldsDSL of names without commas, braces and white space, joined with commas, where an excluded
-- name stands behind a dash and an included one does not start with one, the included names are
-- different, and the excluded ones are different without regard to case, ends for any fuel above
-- their number, and returns options that include just the included names, in their order and
-- without options of their own, and exclude just the excluded ones, in their order.
pub parse_fields_dsl_items :
    (items : List Item) (fuel : ℕ)
    → length items < fuel
    → All Name (map item_text items)
    → All ItemName items
    → Distinct str_eq (included items)
    → Distinct equal_fold (excluded items)
    → parse_fields_dsl fuel (join (44 ∷ []) (map item_text items))
      ≡ parsed (json_options (rules_of (included items)) (excluded items) no_nested)
unfolding parse_fields_dsl
parse_fields_dsl_items items fuel h names plain d e =
    let enough : length (map item_text items) < fuel = omega (arith, h, length-map_items items) in
    parse_names (map item_text items) fuel new_json_options enough names
    ∙ ap parsed (add_items items [] [] plain d e)
