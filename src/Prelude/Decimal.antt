-- ===== src/Prelude/Decimal.antt =====
-- Decimal digits of a number, as the verb %d prints them.
use thing.Prelude.Tests.{ltb, if◌then◌else◌}
use thing.Prelude.Text.{Str}
use thing.Prelude.Int.{ℤ, pos, negsuc}
use Prim.Native.Nat.{ℕ, zero, suc, ◌+◌, ◌/◌, ◌%◌}
use mathlib.Core.List.{[], ◌∷◌}

-- The digits before `tail`; a number has fewer digits than its value, plus one.
unfoldable pub digits_before : ℕ → ℕ → Str → Str
digits_before zero n tail = tail
digits_before (suc fuel) n tail =
    let d = (48 + n % 10) ∷ tail in
    let more = digits_before fuel (n / 10) d in if ltb n 10 then d else more

unfoldable pub print_ℕ : ℕ → Str
unfolding digits_before
print_ℕ n = digits_before (suc n) n []

unfoldable pub print_ℤ : ℤ → Str
unfolding print_ℕ
print_ℤ (pos n) = print_ℕ n
print_ℤ (negsuc n) = 45 ∷ print_ℕ (suc n)
