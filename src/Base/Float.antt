-- ===== src/Base/Float.antt =====
-- The operations on `float` and of <cmath> that the program calls. Their values are not modelled:
-- the model is stated over any type with these operations, and a theorem names the laws it needs.
use mathlib.Core.Path.{◌≡◌}
use mathlib.Core.Bool.{Bool, true, false}
use Prim.Native.Nat.{ℕ}
use native.Mathlib.Omega.{arith}
use fluid_edm.Base.Tests.{if◌then◌else◌}
use fluid_edm.Base.Int.{ℤ, pos}

pub record Float (F : Type 0) : Type 0 where
  -- the literal m * 10 ^ -k
  pub dec : ℕ → ℕ → F
  -- the conversion from an integer type
  pub of_int : ℤ → F
  pub add : F → F → F
  pub sub : F → F → F
  pub mul : F → F → F
  pub div : F → F → F
  pub minus : F → F
  pub fabs : F → F
  pub lt : F → F → Bool
  pub le : F → F → Bool
  -- the conversion to an integer type, before its wrap-around, and std::lround
  pub trunc : F → ℤ
  pub lround : F → ℤ

module _ {F : Type 0} ⦃f : Float F⦄ where
  abbrev pub nought : F
  nought = f.dec 0 0

  abbrev pub one : F
  one = f.dec 1 0

  abbrev pub of_ℕ : ℕ → F
  of_ℕ n = f.of_int (pos n)

  -- `clampf` of the EDM sources, which each of them defines anew
  unfoldable pub clampf : F → F → F → F
  clampf v lo hi = if f.lt v lo then lo else if f.lt hi v then hi else v

-- What the theorems use of the comparisons and of the sign; NaN obeys these laws too.
pub record IsFloat (F : Type 0) ⦃f : Float F⦄ : Type 0 where
  pub lt_irrefl : (x : F) → f.lt x x ≡ false
  pub lt_trans : (x y z : F) → f.lt x y ≡ true → f.lt y z ≡ true → f.lt x z ≡ true
  pub minus_sign : (x : F) → f.lt x (f.dec 0 0) ≡ false → f.lt (f.dec 0 0) (f.minus x) ≡ false
  -- a product with zero is a zero or NaN
  pub mul_nought : (x : F) → f.lt (f.dec 0 0) (f.mul x (f.dec 0 0)) ≡ false

module _ {F : Type 0} ⦃f : Float F⦄ (laws : IsFloat F) where
  -- The result of `clampf` is never below the lower bound nor above the upper one.
  pub clampf_bounds :
      (v lo hi : F)
      → f.lt hi lo ≡ false
      → (f.lt (clampf v lo hi) lo ≡ false) × (f.lt hi (clampf v lo hi) ≡ false)
  unfolding clampf
  clampf_bounds v lo hi h = ground (arith, laws.lt_irrefl lo, laws.lt_irrefl hi)
