-- ===== src/Text/Utf8/Range.antt =====
-- What the decoder's two fields can hold.
use fluid_edm.Base.{
  ℕ, zero, suc, ◌+◌, ◌*◌, ◌%◌, ◌^◌, ◌<◌, ◌≤◌, ◌≡◌, refl, arith, ◌==◌, bit_and, bit_or, Bool-cases,
  inl, inr,
}
use fluid_edm.Base.Bits.{bit_and-mask, bit_or-shift, bit_or_comm}
use fluid_edm.Text.Utf8.{
  Utf8, Decoded, failed, pending, complete, progress, continue_byte, start_byte, decode_byte,
}

-- With `state` bytes to come, the bits read so far are below this.
abbrev pub limit : ℕ → ℕ
limit zero = 2 ^ 21
limit (suc zero) = 2 ^ 15
limit (suc (suc zero)) = 2 ^ 9
limit (suc (suc (suc state))) = 2 ^ 3

abbrev pub IsUtf8 : Utf8 → Type 0
IsUtf8 u = (u.state ≤ 3) × (u.num < limit u.state)

abbrev pub InRange : Decoded → Type 0
InRange failed = Unit
InRange pending = Unit
InRange (complete value) = value < 2 ^ 21

progress-IsUtf8 :
    (num state : ℕ)
    → state ≤ 3
    → num < limit state
    → InRange (progress num state).0 × IsUtf8 (progress num state).1
progress-IsUtf8 num zero h lt = (lt, (omega arith, lt))
progress-IsUtf8 num (suc state) h lt = (tt, (h, lt))

limit-lt :
    (state num low : ℕ)
    → state ≤ 2
    → num < limit (suc state)
    → low < 64
    → num * 64 + low < limit state
limit-lt zero num low h lt small = omega arith
limit-lt (suc zero) num low h lt small = omega arith
limit-lt (suc (suc zero)) num low h lt small = omega arith
limit-lt (suc (suc (suc state))) num low h lt small = absurd (omega arith)

limit-le : (state num : ℕ) → num < limit state → num < 2 ^ 21
limit-le zero num lt = lt
limit-le (suc zero) num lt = omega arith
limit-le (suc (suc zero)) num lt = omega arith
limit-le (suc (suc (suc state))) num lt = omega arith

continue_byte-IsUtf8 :
    (u : Utf8) (state ch : ℕ)
    → state ≤ 2
    → u.num < limit (suc state)
    → InRange (continue_byte u state ch).0 × IsUtf8 (continue_byte u state ch).1
unfolding continue_byte
continue_byte-IsUtf8 u state ch h lt = elim (Bool-cases (bit_and ch 192 == 128)) [
  | inl tail ↦
      let low : bit_and ch 63 ≡ ch % 64 = bit_and-mask 6 ch in
      let small = limit-le (suc state) (u.num) lt in
      let whole : bit_or (u.num * 2 ^ 6 % 2 ^ 32) (ch % 64) ≡ u.num * 64 + ch % 64 =
        ground
          (arith, small, bit_or_comm (u.num * 64) (ch % 64), bit_or-shift 6 (ch % 64) (u.num)) in
      rw (tail, low, whole)
        (progress-IsUtf8 (u.num * 64 + ch % 64) state (omega arith)
          (limit-lt state (u.num) (ch % 64) h lt (omega arith)))
  | inr head ↦ rw head (tt, (omega arith, limit-le (suc state) (u.num) lt))
]

start_byte-IsUtf8 :
    (u : Utf8) (ch : ℕ)
    → u.state ≡ 0
    → u.num < 2 ^ 21
    → ch < 256
    → InRange (start_byte u ch).0 × IsUtf8 (start_byte u ch).1
unfolding start_byte
start_byte-IsUtf8 u ch rest lt byte =
    ground (arith, rest, bit_and-mask 3 ch, bit_and-mask 4 ch, bit_and-mask 5 ch)

fields-IsUtf8 :
    (num state ch : ℕ)
    → state ≤ 3
    → num < limit state
    → ch < 256
    → let (result, next) = decode_byte (record { num = num; state = state }) ch in
      InRange result × IsUtf8 next
unfolding decode_byte
fields-IsUtf8 num zero ch h lt byte =
    start_byte-IsUtf8 (record { num = num; state = 0 }) ch refl lt byte
fields-IsUtf8 num (suc state) ch h lt byte =
    continue_byte-IsUtf8 (record { num = num; state = suc state }) state ch (omega arith) lt

-- Every byte, in every state, keeps at most three bytes to come, and so few bits read that the value
-- that ends a sequence is below 2^21: the shift in 32 bits loses none.
pub decode_byte-IsUtf8 :
    (u : Utf8) (ch : ℕ)
    → IsUtf8 u
    → ch < 256
    → let (result, next) = decode_byte u ch in InRange result × IsUtf8 next
decode_byte-IsUtf8 u ch (h, lt) byte = fields-IsUtf8 (u.num) (u.state) ch h lt byte
