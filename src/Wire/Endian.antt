-- ===== src/Wire/Endian.antt =====
-- EDM/Psu/Endian.h: little-endian fields in a payload. The pointer `d + k` is the offset k. A signed
-- 16-bit field is an integer; the conversions to and from its bit pattern are those of C++.
use fluid_edm.Base.{
  ℕ, ◌+◌, ◌*◌, ◌/◌, ◌%◌, ◌^◌, ◌<◌, ◌≡◌, List, bit_or, arith, get_or, set, All, All-get_or, ap, ◌∙◌,
}
use fluid_edm.Base.Int.{ℤ, signed16, pattern16, IsInt16, signed16-pattern16, pattern16-lt}
use fluid_edm.Base.Bits.{bit_or-shift}
use fluid_edm.Wire.Frame.{IsByte}

unfoldable pub put_u8 : List ℕ → ℕ → ℕ → List ℕ
put_u8 p at v = set p at (v % 2 ^ 8)

unfoldable pub get_u8 : List ℕ → ℕ → ℕ
get_u8 p at = get_or p at 0

unfoldable pub put_u16 : List ℕ → ℕ → ℕ → List ℕ
put_u16 p at v = set (set p at (v % 2 ^ 8)) (at + 1) (v / 2 ^ 8 % 2 ^ 8)

unfoldable pub get_u16 : List ℕ → ℕ → ℕ
get_u16 p at = bit_or (get_or p at 0) (get_or p (at + 1) 0 * 2 ^ 8)

unfoldable pub put_i16 : List ℕ → ℕ → ℤ → List ℕ
put_i16 p at v = put_u16 p at (pattern16 v)

unfoldable pub get_i16 : List ℕ → ℕ → ℤ
get_i16 p at = signed16 (get_u16 p at)

unfoldable pub put_u32 : List ℕ → ℕ → ℕ → List ℕ
put_u32 p at v =
    set
      (set (set (set p at (v % 2 ^ 8)) (at + 1) (v / 2 ^ 8 % 2 ^ 8)) (at + 2) (v / 2 ^ 16 % 2 ^ 8))
      (at + 3) (v / 2 ^ 24 % 2 ^ 8)

unfoldable pub get_u32 : List ℕ → ℕ → ℕ
get_u32 p at =
    bit_or
      (bit_or (bit_or (get_or p at 0) (get_or p (at + 1) 0 * 2 ^ 8)) (get_or p (at + 2) 0 * 2 ^ 16))
      (get_or p (at + 3) 0 * 2 ^ 24)

-- The bytes of a word, put together again.
pub bytes16 : (v : ℕ) → v < 2 ^ 16 → bit_or (v % 2 ^ 8) (v / 2 ^ 8 % 2 ^ 8 * 2 ^ 8) ≡ v
bytes16 v h = omega (arith, bit_or-shift 8 (v % 2 ^ 8) (v / 2 ^ 8 % 2 ^ 8) (omega arith))

pub byte_fits : (v : ℕ) → v < 2 ^ 8 → v % 2 ^ 8 ≡ v
byte_fits v h = omega arith

pub bytes_i16 :
    (v : ℤ)
    → IsInt16 v
    → signed16 (bit_or (pattern16 v % 2 ^ 8) (pattern16 v / 2 ^ 8 % 2 ^ 8 * 2 ^ 8)) ≡ v
bytes_i16 v h = ap signed16 (bytes16 (pattern16 v) (pattern16-lt v)) ∙ signed16-pattern16 v h

pub join32 :
    (a b c d : ℕ)
    → a < 256
    → b < 256
    → c < 256
    → bit_or (bit_or (bit_or a (b * 2 ^ 8)) (c * 2 ^ 16)) (d * 2 ^ 24)
      ≡ a + b * 2 ^ 8 + c * 2 ^ 16 + d * 2 ^ 24
join32 a b c d ha hb hc =
    let ab = bit_or-shift 8 a b ha in
    let abc = bit_or-shift 16 (bit_or a (b * 2 ^ 8)) c (omega arith) in
    let abcd = bit_or-shift 24 (bit_or (bit_or a (b * 2 ^ 8)) (c * 2 ^ 16)) d (omega arith) in
    omega arith

pub bytes32 :
    (v : ℕ)
    → v < 2 ^ 32
    → bit_or
        (bit_or (bit_or (v % 2 ^ 8) (v / 2 ^ 8 % 2 ^ 8 * 2 ^ 8)) (v / 2 ^ 16 % 2 ^ 8 * 2 ^ 16))
        (v / 2 ^ 24 % 2 ^ 8 * 2 ^ 24)
      ≡ v
bytes32 v h = omega (
  arith,
  join32 (v % 2 ^ 8) (v / 2 ^ 8 % 2 ^ 8) (v / 2 ^ 16 % 2 ^ 8) (v / 2 ^ 24 % 2 ^ 8) (omega arith)
      (omega arith) (omega arith),
)

module _ (p : List ℕ) (bytes : All IsByte p) where
  byte-lt : (at : ℕ) → get_or p at 0 < 256
  byte-lt at = All-get_or IsByte p at 0 bytes (omega arith)

  pub get_u8-lt : (at : ℕ) → get_u8 p at < 2 ^ 8
  unfolding get_u8
  get_u8-lt at = byte-lt at

  -- A 16-bit read of bytes stays within 16 bits.
  pub get_u16-lt : (at : ℕ) → get_u16 p at < 2 ^ 16
  unfolding get_u16
  get_u16-lt at = omega (
    arith,
    byte-lt at,
    byte-lt (at + 1),
    bit_or-shift 8 (get_or p at 0) (get_or p (at + 1) 0) (byte-lt at),
  )

  pub get_u32-lt : (at : ℕ) → get_u32 p at < 2 ^ 32
  unfolding get_u32
  get_u32-lt at = omega (
    arith,
    byte-lt (at + 3),
    byte-lt (at + 2),
    byte-lt (at + 1),
    byte-lt at,
    join32 (get_or p at 0) (get_or p (at + 1) 0) (get_or p (at + 2) 0) (get_or p (at + 3) 0)
        (byte-lt at) (byte-lt (at + 1)) (byte-lt (at + 2)),
  )
