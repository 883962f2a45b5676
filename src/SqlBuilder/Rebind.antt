-- ===== src/SqlBuilder/Rebind.antt =====
-- Rebind of internal/sqlbuilder/sqlbuilder.go.
use thing.Prelude.{
  ℕ, suc, ◌+◌, Str, List, [], ◌∷◌, ◌++◌, All, false, ◌==◌, ◌≡◌, refl, sym, ap, ◌∙◌, arith,
  append_nil_lem,
}
use thing.SqlBuilder.{Dialector, join, rebind_from, rebind}

-- A text without marks.
abbrev pub Unmarked : Str → Type 0
Unmarked = All (λ c. (c == 63) ≡ false)

rebind_from-Unmarked :
    (d : Dialector) (i : ℕ) (s t : Str)
    → Unmarked s
    → rebind_from d i (s ++ t) ≡ s ++ rebind_from d i t
unfolding rebind_from
rebind_from-Unmarked d i [] t h = refl
rebind_from-Unmarked d i (c ∷ s) t h = rw (h.0, rebind_from-Unmarked d i s t h.1) refl

-- Parts of a text with the placeholders of a dialect between them, counted from an index on.
abbrev numbered : Dialector → ℕ → List Str → Str
numbered d i [] = []
numbered d i (s ∷ []) = s
numbered d i (s ∷ t ∷ parts) = s ++ (d.placeholder i ++ numbered d (suc i) (t ∷ parts))

rebind_from-numbered :
    (d : Dialector) (i : ℕ) (parts : List Str)
    → All Unmarked parts
    → rebind_from d i (join (63 ∷ []) parts) ≡ numbered d i parts
unfolding rebind_from join
rebind_from-numbered d i [] h = refl
rebind_from-numbered d i (s ∷ []) h =
    ap (rebind_from d i) (sym (append_nil_lem s))
    ∙ (rebind_from-Unmarked d i s [] h.0 ∙ append_nil_lem s)
rebind_from-numbered d i (s ∷ t ∷ parts) h =
    let next : i + 1 ≡ suc i = omega arith in
    rebind_from-Unmarked d i s (63 ∷ join (63 ∷ []) (t ∷ parts)) h.0
    ∙ rw (next, rebind_from-numbered d (suc i) (t ∷ parts) h.1) refl

-- Rebind of parts without marks, joined with marks, leaves each part as it is, and writes the
-- placeholders 1, 2, ... of the dialect for the marks between them, from left to right.
pub rebind-numbered :
    (d : Dialector) (parts : List Str)
    → All Unmarked parts
    → rebind d (join (63 ∷ []) parts) ≡ numbered d 1 parts
unfolding rebind
rebind-numbered d parts h = rebind_from-numbered d 1 parts h
