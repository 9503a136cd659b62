-- ===== src/Base/Decimal.antt =====
-- The decimal numerals that `%ld` of the C library writes.
use Prim.Native.Nat.{ℕ, zero, suc, ◌+◌, ◌/◌, ◌%◌}
use mathlib.Core.List.{List, [], ◌∷◌, ◌++◌}
use fluid_edm.Base.Tests.{ltb, if◌then◌else◌}
use fluid_edm.Base.Int.{ℤ, pos, negsuc}

-- the digits of a number below the fuel
unfoldable pub digits : ℕ → ℕ → List ℕ
digits zero n = []
digits (suc fuel) n =
    let higher = digits fuel (n / 10) in
    if ltb n 10 then (48 + n) ∷ [] else higher ++ ((48 + n % 10) ∷ [])

abbrev pub print_nat : ℕ → List ℕ
print_nat n = digits (suc n) n

abbrev pub print_int : ℤ → List ℕ
print_int (pos n) = print_nat n
print_int (negsuc n) = b'-' ∷ print_nat (suc n)
