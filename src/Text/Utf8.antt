-- ===== src/Text/Utf8.antt =====
-- FluidNC/src/UTF8.cpp and UTF8.h, with PASS_THROUGH_80_BF defined as the file does.
pub mod RoundTrip
pub mod Range
use fluid_edm.Base.{
  ℕ, zero, suc, ◌*◌, ◌/◌, ◌%◌, ◌^◌, Bool, true, false, Option, none, some, List, [], ◌∷◌, ltb, leb,
  ◌==◌, if◌then◌else◌, not, bit_and, bit_or, length,
}

-- `_num` and `_state`: the bits read so far, and how many bytes of the sequence are still to come
pub record Utf8 : Type 0 where
  pub num : ℕ
  pub state : ℕ

abbrev pub new_utf8 : Utf8
new_utf8 = record { num = 0; state = 0 }

-- The results -1, 0, and 1 with the value.
pub data Decoded : Type 0 where
  failed : Decoded
  pending : Decoded
  complete : ℕ → Decoded

-- `if (_state) return 0; value = _num; return 1;`
abbrev pub progress : ℕ → ℕ → Decoded × Utf8
progress num zero = (complete num, record { num = num; state = 0 })
progress num (suc state) = (pending, record { num = num; state = suc state })

-- in the midst of a sequence, with `state` bytes after this one
unfoldable pub continue_byte : Utf8 → ℕ → ℕ → Decoded × Utf8
continue_byte u state ch =
    if not (bit_and ch 192 == 128)
    then (failed, record u { state = 0 })
    else progress (bit_or (u.num * 2 ^ 6 % 2 ^ 32) (bit_and ch 63)) state

unfoldable pub start_byte : Utf8 → ℕ → Decoded × Utf8
start_byte u ch =
    if ltb ch 128
    then (complete ch, u)
    else if ltb ch 191
    then (complete ch, u)
    else if leb 248 ch
    then (failed, u)
    else if leb 240 ch
    then (pending, record { num = bit_and ch 7; state = 3 })
    else if leb 224 ch
    then (pending, record { num = bit_and ch 15; state = 2 })
    else if leb 192 ch
    then (pending, record { num = bit_and ch 31; state = 1 })
    else (failed, u)

unfoldable pub decode_byte : Utf8 → ℕ → Decoded × Utf8
decode_byte u ch = elim (u.state) [ zero ↦ start_byte u ch | suc state ↦ continue_byte u state ch ]

-- What the loop does with a result: `left` bytes are still there, and `more` reads them.
abbrev pub settle : (Utf8 → Option ℕ × Utf8) → ℕ → Decoded × Utf8 → Option ℕ × Utf8
settle more left (failed, u) = (none, u)
settle more left (pending, u) = more u
settle more left (complete value, u) = (if left == 0 then some value else none, u)

-- The decoder of a vector of bytes; none is the result false.
unfoldable pub decode : Utf8 → List ℕ → Option ℕ × Utf8
decode u [] = (none, u)
decode u (ch ∷ input) = settle (λ next. decode next input) (length input) (decode_byte u ch)

unfoldable pub encode : ℕ → List ℕ
encode value =
    if leb 1114112 value
    then []
    else if leb 65536 value
    then bit_or 240 (bit_and (value / 2 ^ 18) 7)
      ∷ bit_or 128 (bit_and (value / 2 ^ 12) 63)
      ∷ bit_or 128 (bit_and (value / 2 ^ 6) 63)
      ∷ bit_or 128 (bit_and value 63)
      ∷ []
    else if leb 2048 value
    then bit_or 224 (bit_and (value / 2 ^ 12) 15)
      ∷ bit_or 128 (bit_and (value / 2 ^ 6) 63)
      ∷ bit_or 128 (bit_and value 63)
      ∷ []
    else if leb 128 value
    then bit_or 192 (bit_and (value / 2 ^ 6) 31) ∷ bit_or 128 (bit_and value 63) ∷ []
    else value ∷ []
