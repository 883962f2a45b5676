-- ===== src/Json/Fields.antt =====
-- ParseFieldsDSL of json.go on names without braces.
use thing.Prelude.{
  ℕ, zero, suc, ◌<◌, Str, trim_space, trim, trim_left, trim_right, white, member_of, false, ◌||◌,
  none, List, [], ◌∷◌, ◌++◌, is_empty, ◌≡◌, refl, sym, arith, ◌∙◌, ap, All, All-append, reverse,
  length, append_nil_lem,
}
use mathlib.Core.List.{reverse-reverse, reverse-cons}
use thing.SqlBuilder.{join}
use thing.Json.{
  JsonOptions, Parsed, parsed, skip_separators, is_separator, ends_field, split_field, parse,
  parse_round, name_round, field_round, plain_field, inside,
}

-- A byte of a name: no comma, no brace and no white space.
abbrev NameByte : ℕ → Type 0
NameByte c = (ends_field c || member_of c white) ≡ false

-- A name, with its dash if it is excluded: some bytes.
abbrev pub Name : Str → Type 0
Name s = (is_empty s ≡ false) × All NameByte s

trim_left_name : (s : Str) → All NameByte s → trim_left s white ≡ s
unfolding trim_left
trim_left_name [] h = refl
trim_left_name (c ∷ s) h = ground (arith, h)

All-reverse : (P : ℕ → Type 0) (s : Str) → All P s → All P (reverse s)
All-reverse P [] h = h
All-reverse P (c ∷ s) h =
    rw (reverse-cons c s) (All-append P (reverse s) (c ∷ []) (All-reverse P s h.1) (h.0, tt))

trim_space_name : (s : Str) → All NameByte s → trim_space s ≡ s
unfolding trim_space trim trim_right
trim_space_name s h =
    let left = trim_left_name s h in
    let right = trim_left_name (reverse s) (All-reverse NameByte s h) in
    rw (left, right) (reverse-reverse s)

-- A name before the end, or before a comma.
split_field_last : (s : Str) → All NameByte s → split_field s ≡ (s, [])
unfolding split_field
split_field_last [] h = refl
split_field_last (c ∷ s) h =
    let more : ends_field c ≡ false = ground (arith, h) in
    rw (split_field, more, split_field_last s h.1) refl

split_field_comma : (s t : Str) → All NameByte s → split_field (s ++ (44 ∷ t)) ≡ (s, 44 ∷ t)
unfolding split_field ends_field
split_field_comma [] t h = refl
split_field_comma (c ∷ s) t h =
    let more : ends_field c ≡ false = unfold ends_field in ground (arith, h) in
    rw (split_field, more, split_field_comma s t h.1) refl

starts : (c : ℕ) (s : Str) → NameByte c → skip_separators (c ∷ s) ≡ c ∷ s
unfolding skip_separators is_separator ends_field member_of
starts c s h = ground (arith, h)

-- The names, in their order, as included or, with a dash, as excluded.
unfoldable pub add_names : List Str → JsonOptions → JsonOptions
unfolding plain_field
add_names [] o = o
add_names (name ∷ names) o = add_names names (plain_field name o)

-- A round that reads one name.
named_round :
    (again : Str → JsonOptions → Parsed) (name rest : Str) (o : JsonOptions)
    → Name name
    → inside rest ≡ none
    → name_round again o (name, rest) ≡ again (skip_separators rest) (plain_field name o)
unfolding name_round field_round
named_round again name rest o h k =
    let whole = trim_space_name name h.1 in
    let given = h.0 in
    rw (name_round, whole, given, field_round, k)
      (ap (λ n. again (skip_separators rest) (plain_field n o)) whole)

first_round :
    (again : Str → JsonOptions → Parsed) (name rest : Str) (o : JsonOptions)
    → Name name
    → parse_round again (skip_separators (name ++ rest)) o
      ≡ name_round again o (split_field (name ++ rest))
unfolding parse_round
first_round again [] rest o h = absurd (ground (arith, h))
first_round again (c ∷ s) rest o h = rw (starts c (s ++ rest) h.1.0) refl

skip_names :
    (names : List Str)
    → All Name names
    → skip_separators (join (44 ∷ []) names) ≡ join (44 ∷ []) names
unfolding join
skip_names [] h = unfold skip_separators in refl
skip_names ([] ∷ names) h = absurd (ground (arith, h))
skip_names ((c ∷ s) ∷ []) h = starts c s h.0.1.0
skip_names ((c ∷ s) ∷ t ∷ names) h = starts c _ h.0.1.0

skip_comma : (s : Str) → skip_separators (44 ∷ s) ≡ skip_separators s
unfolding skip_separators is_separator
skip_comma s = refl

pub parse_names :
    (names : List Str) (fuel : ℕ) (o : JsonOptions)
    → length names < fuel
    → All Name names
    → parse fuel (join (44 ∷ []) names) o ≡ parsed (add_names names o)
unfolding parse add_names join
parse_names names zero o h k = absurd (omega (arith, h))
parse_names [] (suc fuel) o h k = unfold skip_separators parse_round in refl
parse_names (s ∷ []) (suc fuel) o h k =
    let none_inside : inside [] ≡ none = unfold inside in refl in
    let last = parse_names [] fuel (plain_field s o) (omega (arith, h)) tt in
    ap (λ t. parse_round (parse fuel) (skip_separators t) o) (sym (append_nil_lem s))
    ∙ (first_round (parse fuel) s [] o k.0
        ∙ (ap (λ t. name_round (parse fuel) o (split_field t)) (append_nil_lem s)
            ∙ (ap (name_round (parse fuel) o) (split_field_last s k.0.1)
                ∙ (named_round (parse fuel) s [] o k.0 none_inside ∙ last))))
parse_names (s ∷ t ∷ names) (suc fuel) o h k =
    let rest = join (44 ∷ []) (t ∷ names) in
    let none_inside : inside (44 ∷ rest) ≡ none = unfold inside in refl in
    let skipped = skip_comma rest ∙ skip_names (t ∷ names) k.1 in
    first_round (parse fuel) s (44 ∷ rest) o k.0
    ∙ (ap (name_round (parse fuel) o) (split_field_comma s rest k.0.1)
        ∙ (named_round (parse fuel) s (44 ∷ rest) o k.0 none_inside
            ∙ (ap (λ u. parse fuel u (plain_field s o)) skipped
                ∙ parse_names (t ∷ names) fuel (plain_field s o) (omega (arith, h)) k.1)))
