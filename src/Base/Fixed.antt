-- ===== src/Base/Fixed.antt =====
-- A concrete type with the operations of `Float`: whole millionths. The witnesses run on it.
use Prim.Native.Nat.{ℕ, suc, ◌+◌, ◌*◌, ◌/◌, ◌^◌}
use mathlib.Core.Path.{◌≡◌}
use mathlib.Core.Bool.{false}
use native.Mathlib.Omega.{arith}
use fluid_edm.Base.Int.{ℤ, pos, negsuc, pos_part, neg_part, sub_ℕ, neg, ltb_ℤ, leb_ℤ}
use fluid_edm.Base.Float.{Float, IsFloat}

abbrev micro : ℕ
micro = 10 ^ 6

abbrev on_magnitude : (ℕ → ℕ) → ℤ → ℤ
on_magnitude g (pos n) = pos (g n)
on_magnitude g (negsuc n) = neg (pos (g (suc n)))

abbrev quot : ℤ → ℤ → ℤ
quot a (pos b) = on_magnitude (λ n. n * micro / b) a
quot a (negsuc b) = neg (on_magnitude (λ n. n * micro / suc b) a)

abbrev prod : ℤ → ℤ → ℤ
prod a (pos b) = on_magnitude (λ n. n * b / micro) a
prod a (negsuc b) = neg (on_magnitude (λ n. n * suc b / micro) a)

instance abbrev pub micros : Float ℤ
micros = record {
  dec = λ m e. pos (m * micro / 10 ^ e);
  of_int = on_magnitude (λ n. n * micro);
  add = λ a b. sub_ℕ (pos_part a + pos_part b) (neg_part a + neg_part b);
  sub = λ a b. sub_ℕ (pos_part a + neg_part b) (neg_part a + pos_part b);
  mul = prod;
  div = quot;
  minus = neg;
  fabs = λ a. pos (pos_part a + neg_part a);
  lt = ltb_ℤ;
  le = leb_ℤ;
  trunc = on_magnitude (λ n. n / micro);
  lround = on_magnitude (λ n. (n + micro / 2) / micro);
}

prod_nought : (x : ℤ) → ltb_ℤ (pos 0) (prod x (pos 0)) ≡ false
prod_nought (pos n) = ground arith
prod_nought (negsuc n) = ground arith

pub micros-IsFloat : IsFloat ℤ
micros-IsFloat = record {
  lt_irrefl = λ x. ground arith;
  lt_trans = λ x y z p q. ground arith;
  minus_sign = λ x p. ground arith;
  mul_nought = prod_nought;
}
