-- ===== src/Predicate/Scan/Literals.antt =====
-- String literals of a WHERE clause: texts between quotes, their own quotes doubled.
use thing.Prelude.{Str, Bool, false, [], ◌∷◌, ◌==◌, if◌then◌else◌}
use thing.Value.{Value}

-- SQL's way to write a text between quotes.
abbrev pub escape : Str → Str
escape [] = []
escape (c ∷ s) = if c == 39 then 39 ∷ 39 ∷ escape s else c ∷ escape s

abbrev starts_quote : Str → Bool
starts_quote [] = false
starts_quote (c ∷ s) = c == 39
