-- ===== src/Json/Merge.antt =====
-- The names that mergeJSONOptions of json.go includes.
use thing.Prelude.{
  Str, str, str_eq_refl, str_eq_iff, equal_fold, to_upper, Bool, true, false, ◌||◌, List, [], ◌∷◌,
  ◌≡◌, refl, sym, ◌∙◌, arith, if◌then◌else◌, Bool-cases, inl, inr,
}
use thing.Json.{
  JsonOptions, json_options, FieldRules, NestedOptions, no_fields, field_rule, contains,
  remove_duplicates, merge_fields, merge_json_options,
}

-- The names of the rules.
unfoldable names_of : FieldRules → List Str
names_of no_fields = []
names_of (field_rule name o rules) = name ∷ names_of rules

-- No name is that of another one, without regard to case.
abbrev pub Unique : List Str → Type 0
Unique [] = Unit
Unique (name ∷ names) = (contains names name ≡ false) × Unique names

fold_sound : (s t : Str) → equal_fold s t ≡ true → to_upper s ≡ to_upper t
unfolding equal_fold
fold_sound s t h = (str_eq_iff (to_upper s) (to_upper t)).0 h

-- Without regard to case, two names are contained alike.
contains-fold :
    (names : List Str) (s t : Str) → equal_fold s t ≡ true → contains names s ≡ contains names t
unfolding contains equal_fold
contains-fold [] s t h = refl
contains-fold (n ∷ names) s t h =
    let e = fold_sound s t h in let ih = contains-fold names s t h in rw (contains, e, ih) refl

fold_refl : (s : Str) → equal_fold s s ≡ true
unfolding equal_fold
fold_refl s = str_eq_refl (to_upper s)

-- What was seen, and whether an id was.
abbrev Seen : Bool → List Str → Type 0
Seen id seen = id ≡ contains seen (str "id")

repeated : Bool → List Str → Str → Bool
repeated id seen name = if equal_fold name (str "id") then id else contains seen name

repeated_lem :
    (id : Bool) (seen : List Str) (name : Str)
    → Seen id seen
    → repeated id seen name ≡ contains seen name
unfolding repeated
repeated_lem id seen name h = elim (Bool-cases (equal_fold name (str "id"))) [
  | inl e ↦ rw (repeated, e) (h ∙ sym (contains-fold seen name (str "id") e))
  | inr e ↦ rw (repeated, e) refl
]

flag_kept :
    (id : Bool) (seen : List Str) (name : Str)
    → Seen id seen
    → Seen (id || equal_fold name (str "id")) (name ∷ seen)
unfolding contains
flag_kept id seen name h = ground (arith, h)

kept_lem :
    (id : Bool) (seen : List Str) (name : Str) (o : NestedOptions) (rules : FieldRules)
    → repeated id seen name ≡ false
    → remove_duplicates id seen (field_rule name o rules)
      ≡ field_rule name o (remove_duplicates (id || equal_fold name (str "id")) (name ∷ seen) rules)
unfolding remove_duplicates repeated
kept_lem id seen name o rules h = rw (remove_duplicates, h) refl

dropped_lem :
    (id : Bool) (seen : List Str) (name : Str) (o : NestedOptions) (rules : FieldRules)
    → repeated id seen name ≡ true
    → remove_duplicates id seen (field_rule name o rules) ≡ remove_duplicates id seen rules
unfolding remove_duplicates repeated
dropped_lem id seen name o rules h = rw (remove_duplicates, h) refl

-- No name that was seen is kept.
remove_duplicates-fresh :
    (id : Bool) (seen : List Str) (rules : FieldRules) (n : Str)
    → Seen id seen
    → contains seen n ≡ true
    → contains (names_of (remove_duplicates id seen rules)) n ≡ false
unfolding contains names_of
remove_duplicates-fresh id seen no_fields n h k = unfold remove_duplicates in refl
remove_duplicates-fresh id seen (field_rule name o rules) n h k =
    let known = repeated_lem id seen name h in
    elim (Bool-cases (repeated id seen name)) [
      | inl e ↦
          rw (dropped_lem id seen name o rules e) (remove_duplicates-fresh id seen rules n h k)
      | inr e ↦
          let ih =
            remove_duplicates-fresh (id || equal_fold name (str "id")) (name ∷ seen) rules n
              (flag_kept id seen name h) (ground (arith, k)) in
          elim (Bool-cases (equal_fold name n)) [
            | inl f ↦
                absurd (let same = contains-fold seen name n f in ground (arith, known, e, same, k))
            | inr f ↦ rw (kept_lem id seen name o rules e, f) ih
          ]
    ]

remove_duplicates-Unique :
    (id : Bool) (seen : List Str) (rules : FieldRules)
    → Seen id seen
    → Unique (names_of (remove_duplicates id seen rules))
unfolding names_of
remove_duplicates-Unique id seen no_fields h = unfold remove_duplicates in tt
remove_duplicates-Unique id seen (field_rule name o rules) h =
    elim (Bool-cases (repeated id seen name)) [
      | inl e ↦ rw (dropped_lem id seen name o rules e) (remove_duplicates-Unique id seen rules h)
      | inr e ↦
          let more = flag_kept id seen name h in
          let flag = id || equal_fold name (str "id") in
          let self : contains (name ∷ seen) name ≡ true =
            unfold contains in ground (arith, fold_refl name) in
          rw (kept_lem id seen name o rules e) (
            remove_duplicates-fresh flag (name ∷ seen) rules name more self,
            remove_duplicates-Unique flag (name ∷ seen) rules more,
          )
    ]

-- The fields that a result of mergeJSONOptions includes.
unfoldable pub included_names : JsonOptions → List Str
unfolding names_of
included_names (json_options fields excluded inner) = names_of fields

-- Whatever options are merged, the names that the result of mergeJSONOptions includes are different, also
-- without regard to case.
pub merge_json_options-Unique :
    (dst src : JsonOptions) → Unique (included_names (merge_json_options dst src))
unfolding merge_json_options included_names
merge_json_options-Unique (json_options fields excluded inner) (json_options more others rest) =
    remove_duplicates-Unique false [] (merge_fields fields more) (unfold contains in refl)
