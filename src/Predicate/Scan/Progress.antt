-- ===== src/Predicate/Scan/Progress.antt =====
-- The tokenizer of internal/cache/query_predicate.go: the bytes that its rounds take, and its fuel.
use thing.Prelude.{
  ℕ, zero, suc, ◌≤◌, ◌<◌, Str, false, ◌≡◌, ◌||◌, ◌&&◌, inl, inr, [], ◌∷◌, length, arith, Bool-cases,
  ◌==◌, if◌then◌else◌,
}
use thing.Query.{Outcome, Outcome-bind, Outcome-mono, Outcome-if, Result, ok, ◌>>=◌}
use thing.Value.{Value, Runtime}
use thing.Predicate.Token.{Token, literal, operator, classify_word}
use thing.Predicate.Scan.{
  is_space, is_symbol, single_operator, scan_symbol_operator, scan_string_literal, scan_to_close,
  scan_quoted_identifier, ends_word, scan_word, next_token, tokenize_from, tokenize_where,
}

-- What a scanner leaves is no longer than `s`.
abbrev Leaves {ℓ} : {A : Type ℓ} → Str → A × Str → Type 0
Leaves s r = length r.1 ≤ length s

single_operator_lem : (c : ℕ) (s : Str) → Outcome (Leaves s) (single_operator c s)
unfolding single_operator
single_operator_lem c s = elim (Bool-cases (c == 61 || (c == 62 || c == 60))) [
  | inl known ↦ rw known (omega arith)
  | inr other ↦ rw other (λ e. cc)
]

scan_symbol_operator_lem : (c : ℕ) (s : Str) → Outcome (Leaves s) (scan_symbol_operator c s)
unfolding scan_symbol_operator
scan_symbol_operator_lem c [] = single_operator_lem c []
scan_symbol_operator_lem c (d ∷ s) =
    elim (Bool-cases ((d == 61 && (c == 62 || (c == 60 || c == 33))) || (c == 60 && d == 62))) [
      | inl two ↦ rw two (omega arith)
      | inr one ↦ rw one (single_operator_lem c (d ∷ s))
    ]

scan_string_literal_lem : (b s : Str) → Outcome (Leaves s) (scan_string_literal b s)
unfolding scan_string_literal
scan_string_literal_lem b [] = λ e. cc
scan_string_literal_lem b (c ∷ []) = elim (Bool-cases (c == 39)) [
  | inl closed ↦ rw closed (omega arith)
  | inr open_end ↦ rw open_end (λ e. cc)
]
scan_string_literal_lem b (c ∷ d ∷ s) = elim (Bool-cases (c == 39)) [
  | inl quote ↦ elim (Bool-cases (d == 39)) [
    | inl doubled ↦
        rw (quote, doubled)
          (Outcome-mono (Leaves s) (Leaves (c ∷ d ∷ s)) (scan_string_literal (39 ∷ b) s)
            (scan_string_literal_lem (39 ∷ b) s) λ r h. omega arith)
    | inr closed ↦ rw (quote, closed) (omega arith)
  ]
  | inr plain ↦ rw plain (
      Outcome-mono (Leaves (d ∷ s)) (Leaves (c ∷ d ∷ s)) (scan_string_literal (c ∷ b) (d ∷ s))
        (scan_string_literal_lem (c ∷ b) (d ∷ s)) λ r h. omega arith)
]

scan_to_close_lem : (close : ℕ) (b s : Str) → Outcome (Leaves s) (scan_to_close close b s)
unfolding scan_to_close
scan_to_close_lem close b [] = λ e. cc
scan_to_close_lem close b (c ∷ s) = elim (Bool-cases (c == close)) [
  | inl closed ↦ rw closed (omega arith)
  | inr inside ↦ rw inside (
      Outcome-mono (Leaves s) (Leaves (c ∷ s)) (scan_to_close close (c ∷ b) s)
        (scan_to_close_lem close (c ∷ b) s) λ r h. omega arith)
]

scan_word_lem : (b s : Str) → length (scan_word b s).1 ≤ length s
unfolding scan_word
scan_word_lem b [] = omega arith
scan_word_lem b (c ∷ s) = ground (arith, scan_word_lem (c ∷ b) s)

-- A word that is started has a byte.
scan_word_takes :
    (b : Str) (c : ℕ) (s : Str) → ends_word c ≡ false → length (scan_word b (c ∷ s)).1 ≤ length s
unfolding scan_word
scan_word_takes b c s h = rw h (scan_word_lem (c ∷ b) s)

then_ok {ℓ κ} :
    {A : Type ℓ} {B : Type κ} (s : Str) (m : Result (A × Str)) (g : A → B)
    → Outcome (Leaves s) m
    → Outcome (Leaves s) (m >>= λ r. ok (g r.0, r.1))
then_ok s m g h = Outcome-bind (Leaves s) (Leaves s) m _ h (λ r k. k)

quoted_lem : (c : ℕ) (s : Str) → Outcome (Leaves s) (scan_quoted_identifier c s)
unfolding scan_quoted_identifier
quoted_lem c s = scan_to_close_lem (if c == 91 then 93 else c) (c ∷ []) s

in_word :
    (c : ℕ)
    → is_space c ≡ false
    → (c == 40) ≡ false
    → (c == 41) ≡ false
    → (c == 44) ≡ false
    → (c == 63) ≡ false
    → is_symbol c ≡ false
    → ends_word c ≡ false
unfolding ends_word
in_word c a b d e f g = ground arith

-- At a byte that is no white space a round of the loop takes that byte, and maybe more.
next_token_lem :
    (f : Runtime) (c : ℕ) (s : Str) → is_space c ≡ false → Outcome (Leaves s) (next_token f c s)
unfolding next_token
next_token_lem f c s h =
    let P = Leaves {A = Token} s in
    Outcome-if P (c == 40) _ _ (λ _. omega arith)
      λ a.
        Outcome-if P (c == 41) _ _ (λ _. omega arith)
          λ b.
            Outcome-if P (c == 44) _ _ (λ _. omega arith)
              λ d.
                Outcome-if P (c == 63) _ _ (λ _. omega arith)
                  λ e.
                    Outcome-if P (is_symbol c) _ _
                      (λ _.
                        then_ok s (scan_symbol_operator c s) operator
                          (scan_symbol_operator_lem c s))
                      λ g.
                        Outcome-if P (c == 39) _ _
                          (λ _.
                            then_ok s (scan_string_literal [] s) (λ t. literal (Value.text t))
                              (scan_string_literal_lem [] s))
                          λ _.
                            Outcome-if P (c == 96 || (c == 34 || c == 91)) _ _
                              (λ _.
                                then_ok s (scan_quoted_identifier c s) (classify_word f)
                                  (quoted_lem c s))
                              λ _. scan_word_takes [] c s (in_word c h a b d e g)

tokenize_from_lem :
    (f : Runtime) (fuel : ℕ) (s : Str)
    → length s < fuel
    → Outcome (λ _. Unit {0}) (tokenize_from f fuel s)
unfolding tokenize_from
tokenize_from_lem f zero s h = absurd (omega arith)
tokenize_from_lem f (suc fuel) [] h = tt
tokenize_from_lem f (suc fuel) (c ∷ s) h =
    Outcome-if (λ _. Unit {0}) (is_space c) _ _ (λ _. tokenize_from_lem f fuel s (omega arith))
      λ visible.
        Outcome-bind (Leaves {A = Token} s) (λ _. Unit {0}) (next_token f c s) _
          (next_token_lem f c s visible)
          λ t shorter.
            Outcome-bind (λ _. Unit {0}) (λ _. Unit {0}) (tokenize_from f fuel t.1) _
              (tokenize_from_lem f fuel t.1 (omega arith)) (λ ts _. tt)

-- The tokenizer returns tokens or an error of the code, for every clause.
pub tokenize_where_total : (f : Runtime) (s : Str) → Outcome (λ _. Unit {0}) (tokenize_where f s)
unfolding tokenize_where
tokenize_where_total f s = tokenize_from_lem f (suc (length s)) s (omega arith)
