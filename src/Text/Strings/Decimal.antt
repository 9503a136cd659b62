-- ===== src/Text/Strings/Decimal.antt =====
-- `from_decimal` against the value of a numeral.
use fluid_edm.Base.{
  ℕ, ◌+◌, ◌-◌, ◌*◌, ◌/◌, ◌%◌, sym, ap, ◌^◌, ◌≡◌, refl, Bool, not, true, none, some, List, [], ◌∷◌,
  arith, length, ◌&&◌, if◌then◌else◌,
}
use native.Mathlib.Nat.{pow-suc}
use fluid_edm.Text.Strings.{is_digit, is_empty, decimal_loop, from_decimal}

abbrev pub all_digits : List ℕ → Bool
all_digits [] = true
all_digits (x ∷ xs) = is_digit x && all_digits xs

-- The number that a numeral denotes: each digit has the weight of the power of ten of its place.
unfoldable pub decimal_value : List ℕ → ℕ
decimal_value [] = 0
decimal_value (x ∷ xs) = (x - 48) * 10 ^ length xs + decimal_value xs

wrap_weight :
    (v e p d : ℕ) → ((v % 2 ^ 32 * 10 + e) * p + d) % 2 ^ 32 ≡ (v * (10 * p) + (e * p + d)) % 2 ^ 32
wrap_weight v e p d =
    let parts : v ≡ v / 2 ^ 32 * 2 ^ 32 + v % 2 ^ 32 = omega arith in
    omega (arith, ap (λ (t : ℕ). t * (10 * p)) parts)

decimal_loop-value :
    (xs : List ℕ) (value : ℕ)
    → decimal_loop (value % 2 ^ 32) xs ≡ (
        if all_digits xs then some ((value * 10 ^ length xs + decimal_value xs) % 2 ^ 32) else none)
unfolding decimal_loop decimal_value
decimal_loop-value [] value =
    let same : (value * 1 + 0) % 2 ^ 32 ≡ value % 2 ^ 32 = omega arith in ap some (sym same)
decimal_loop-value (x ∷ xs) value =
    let wrap = wrap_weight value (x - 48) (10 ^ length xs) (decimal_value xs) in
    ground
      (arith, wrap, decimal_loop-value xs (value % 2 ^ 32 * 10 + (x - 48)), pow-suc 10 (length xs))

-- A text is read if it is not empty and has digits only, and then as the number that it denotes,
-- modulo 2^32: a number that is too large is not refused, but wraps.
pub from_decimal-value :
    (s : List ℕ)
    → from_decimal s
      ≡ (if all_digits s && not (is_empty s) then some (decimal_value s % 2 ^ 32) else none)
unfolding from_decimal
from_decimal-value [] = refl
from_decimal-value (x ∷ xs) = ground (arith, decimal_loop-value (x ∷ xs) 0)
