-- ===== src/Json/Hangs.antt =====
-- Texts on which the loop of ParseFieldsDSL in json.go does not advance.
use thing.Prelude.{
  ℕ, zero, suc, Str, trim_space, true, ◌||◌, [], ◌∷◌, ◌==◌, ◌≡◌, refl, arith, ◌∙◌, ap,
}
use thing.Json.{
  JsonOptions, Parsed, out_of_fuel, skip_separators, is_separator, ends_field, split_field, parse,
  parse_round, name_round, parse_fields_dsl, new_json_options,
}

abbrev IsBrace : ℕ → Type 0
IsBrace c = ((c == 123) || (c == 125)) ≡ true

skip_brace : (c : ℕ) (s : Str) → IsBrace c → skip_separators (c ∷ s) ≡ c ∷ s
unfolding skip_separators is_separator
skip_brace c s h = ground (arith, h)

split_brace : (c : ℕ) (s : Str) → IsBrace c → split_field (c ∷ s) ≡ ([], c ∷ s)
unfolding split_field ends_field
split_brace c s h = ground (arith, h)

round_stays :
    (again : Str → JsonOptions → Parsed) (c : ℕ) (s : Str) (o : JsonOptions)
    → IsBrace c
    → parse_round again (c ∷ s) o ≡ again (c ∷ s) o
unfolding parse_round name_round trim_space
round_stays again c s o h = ap (name_round again o) (split_brace c s h)

parse_stays :
    (fuel c : ℕ) (s : Str) (o : JsonOptions) → IsBrace c → parse fuel (c ∷ s) o ≡ out_of_fuel
unfolding parse
parse_stays zero c s o h = refl
parse_stays (suc fuel) c s o h =
    rw (parse, skip_brace c s h) (round_stays (parse fuel) c s o h ∙ parse_stays fuel c s o h)

-- ParseFieldsDSL does not end on a text whose first byte behind spaces and commas is a brace: no fuel is
-- enough.
pub parse_fields_dsl_hangs :
    (fuel c : ℕ) (dsl rest : Str)
    → skip_separators dsl ≡ c ∷ rest
    → IsBrace c
    → parse_fields_dsl fuel dsl ≡ out_of_fuel
unfolding parse_fields_dsl parse
parse_fields_dsl_hangs zero c dsl rest e h = refl
parse_fields_dsl_hangs (suc fuel) c dsl rest e h =
    rw (parse, e)
      (round_stays (parse fuel) c rest new_json_options h
        ∙ parse_stays fuel c rest new_json_options h)
