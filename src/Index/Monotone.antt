-- ===== src/Index/Monotone.antt =====
-- The parts of the index of internal/cache/index.go under RegisterQuery: lemmas on what they keep.
use thing.Prelude.{Str, Bool, true, false, ◌||◌, ◌≡◌, ◌∙◌, List, [], ◌∷◌, arith, if◌then◌else◌}
use thing.Prelude.Dict.{Dict}
use thing.Value.{Value, Runtime}
use thing.Index.Nested.{
  Sets, Sets2, Sets3, add1, add3, ensure_field, in1, in2, in3, in1-add1, in3-add3, in3-ensure_field,
}
use thing.Index.State.{add_exact, add_values_at, to_index_value_string}
use thing.Index.Registered.{under, by_value}

add_values_at_mono :
    (f : Runtime) (t c s j table field : Str) (vs : List Value) (key : Str) (m : Sets3)
    → in3 t c s j m ≡ true
    → in3 t c s j (add_values_at f table field vs key m) ≡ true
unfolding add_values_at
add_values_at_mono f t c s j table field [] key m h = h
add_values_at_mono f t c s j table field (v ∷ vs) key m h =
    let text = to_index_value_string f v in
    add_values_at_mono f t c s j table field vs key (add3 table field text key m)
      (ground (arith, in3-add3 table t field c text s key j m))

pub add_exact_mono :
    (f : Runtime) (t c s j table : Str) (exact : Dict (List Value)) (key : Str) (m : Sets3)
    → in3 t c s j m ≡ true
    → in3 t c s j (add_exact f table exact key m) ≡ true
unfolding add_exact
add_exact_mono f t c s j table [] key m h = h
add_exact_mono f t c s j table ((field, vs) ∷ rest) key m h =
    add_exact_mono f t c s j table rest key
      (add_values_at f table field vs key (ensure_field table field m))
      (add_values_at_mono f t c s j table field vs key (ensure_field table field m)
        (in3-ensure_field table t field c s j m ∙ h))

pub under_mono :
    (j : Str) (s u : Sets) (fields : List Str)
    → ((c : Str) → in1 c j s ≡ true → in1 c j u ≡ true)
    → under j s fields ≡ true
    → under j u fields ≡ true
under_mono j s u [] h k = k
under_mono j s u (c ∷ fields) h k = ground (arith, h c, under_mono j s u fields h)

pub by_value_mono :
    (f : Runtime) (j : Str) (s u : Sets2) (candidates : Dict Bool) (values : Dict Value)
    → ((c text : Str) → in2 c text j s ≡ true → in2 c text j u ≡ true)
    → by_value f j s candidates values ≡ true
    → by_value f j u candidates values ≡ true
by_value_mono f j s u candidates [] h k = k
by_value_mono f j s u candidates ((c, v) ∷ rest) h k =
    ground (arith, h c (to_index_value_string f v), by_value_mono f j s u candidates rest h)

pub add1_mono :
    (t j table key : Str) (m : Sets) (b : Bool)
    → in1 t j m ≡ true
    → in1 t j (if b then add1 table key m else m) ≡ true
add1_mono t j table key m true h = ground (arith, in1-add1 table t key j m)
add1_mono t j table key m false h = h

pub or_mono :
    (a b c d e g a' b' c' d' e' g' : Bool)
    → (a ≡ true → a' ≡ true)
    → (b ≡ true → b' ≡ true)
    → (c ≡ true → c' ≡ true)
    → (d ≡ true → d' ≡ true)
    → (e ≡ true → e' ≡ true)
    → (g ≡ true → g' ≡ true)
    → (a || b || c || d || e || g) ≡ true
    → (a' || b' || c' || d' || e' || g') ≡ true
or_mono a b c d e g a' b' c' d' e' g' ha hb hc hd he hg h = ground arith
