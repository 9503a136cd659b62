-- ===== src/Text/Utf8/RoundTrip.antt =====
-- Decoding what the encoder writes.
use fluid_edm.Base.{
  ℕ, zero, suc, ◌+◌, ◌*◌, ◌/◌, ◌%◌, ◌^◌, ◌<◌, ◌≡◌, refl, ap, ◌∙◌, Bool, true, false, some, List, [],
  ◌∷◌, arith, leb, ◌==◌, ◌&&◌, bit_and, bit_or, length, lt→ltb, Bool-cases, inl, inr,
}
use fluid_edm.Base.Bits.{bit_and-mask, bit_or-shift, bit_or_comm}
use fluid_edm.Text.Utf8.{
  Utf8, pending, continue_byte, start_byte, decode_byte, progress, settle, decode, encode,
}

-- a test at every number below a bound
abbrev all_below : ℕ → (ℕ → Bool) → Bool
all_below zero p = true
all_below (suc n) p = p n && all_below n p

all_below-lt : (n : ℕ) (p : ℕ → Bool) (i : ℕ) → all_below n p ≡ true → i < n → p i ≡ true
all_below-lt zero p i h lt = absurd (omega arith)
all_below-lt (suc n) p i h lt = ground (arith, all_below-lt n p i)

-- A byte of the form 10xxxxxx passes the test of the high bits.
tail_mark : (r : ℕ) → r < 64 → bit_and (128 + r) 192 ≡ 128
tail_mark r lt = ground (arith, all_below-lt 64 (λ i. bit_and (128 + i) 192 == 128) r refl lt)

tail_byte : (v : ℕ) → bit_or 128 (bit_and v 63) ≡ 128 + v % 64
tail_byte v = ground (arith, bit_and-mask 6 v, bit_or_comm 128 (v % 64), bit_or-shift 6 (v % 64) 2)

continue_byte-tail :
    (n s state r : ℕ)
    → n < 2 ^ 26
    → r < 64
    → continue_byte (record { num = n; state = s }) state (128 + r) ≡ progress (n * 64 + r) state
unfolding continue_byte
continue_byte-tail n s state r small lt =
    let low : bit_and (128 + r) 63 ≡ r = ground (arith, bit_and-mask 6 (128 + r)) in
    let whole : bit_or (n * 64 % 2 ^ 32) r ≡ n * 64 + r =
      ground (arith, bit_or_comm (n * 64) r, bit_or-shift 6 r n) in
    rw (continue_byte, tail_mark r lt, low, whole) refl

-- The bytes that start a sequence, and what they leave of the value.
head_two :
    (n a : ℕ)
    → a < 32
    → start_byte (record { num = n; state = 0 }) (bit_or 192 a)
      ≡ (pending, record { num = a; state = 1 })
unfolding start_byte
head_two n a lt =
    let byte : bit_or 192 a ≡ 192 + a = ground (arith, bit_or_comm 192 a, bit_or-shift 5 a 6) in
    let low : bit_and (192 + a) 31 ≡ a = ground (arith, bit_and-mask 5 (192 + a)) in
    rw byte (ground (arith, low))

head_three :
    (n a : ℕ)
    → a < 16
    → start_byte (record { num = n; state = 0 }) (bit_or 224 a)
      ≡ (pending, record { num = a; state = 2 })
unfolding start_byte
head_three n a lt =
    let byte : bit_or 224 a ≡ 224 + a = ground (arith, bit_or_comm 224 a, bit_or-shift 4 a 14) in
    let low : bit_and (224 + a) 15 ≡ a = ground (arith, bit_and-mask 4 (224 + a)) in
    rw byte (ground (arith, low))

head_four :
    (n a : ℕ)
    → a < 8
    → start_byte (record { num = n; state = 0 }) (bit_or 240 a)
      ≡ (pending, record { num = a; state = 3 })
unfolding start_byte
head_four n a lt =
    let byte : bit_or 240 a ≡ 240 + a = ground (arith, bit_or_comm 240 a, bit_or-shift 3 a 30) in
    let low : bit_and (240 + a) 7 ≡ a = ground (arith, bit_and-mask 3 (240 + a)) in
    rw byte (ground (arith, low))

abbrev pub at_rest : ℕ → Utf8
at_rest n = record { num = n; state = 0 }

decode-pending :
    (u next : Utf8) (ch : ℕ) (rest : List ℕ)
    → decode_byte u ch ≡ (pending, next)
    → decode u (ch ∷ rest) ≡ decode next rest
unfolding decode
decode-pending u next ch rest h = ap (settle (λ u. decode u rest) (length rest)) h

-- the bytes that follow, from the bits that are read
decode-last :
    (n v : ℕ)
    → n < 2 ^ 26
    → decode (record { num = n; state = 1 }) (bit_or 128 (bit_and v 63) ∷ [])
      ≡ (some (n * 64 + v % 64), at_rest (n * 64 + v % 64))
unfolding decode decode_byte
decode-last n v small =
    rw (tail_byte v)
      (ap (settle (λ u. decode u []) 0) (continue_byte-tail n 1 0 (v % 64) small (omega arith)))

decode-more :
    (n state v : ℕ) (rest : List ℕ)
    → n < 2 ^ 26
    → decode (record { num = n; state = suc (suc state) }) (bit_or 128 (bit_and v 63) ∷ rest)
      ≡ decode (record { num = n * 64 + v % 64; state = suc state }) rest
unfolding decode_byte
decode-more n state v rest small = rw (tail_byte v) (
    decode-pending (record { num = n; state = suc (suc state) })
      (record { num = n * 64 + v % 64; state = suc state }) (128 + v % 64) rest
      (continue_byte-tail n (suc (suc state)) (suc state) (v % 64) small (omega arith)))

decode-two :
    (n v : ℕ)
    → v < 2048
    → decode (at_rest n) (bit_or 192 (bit_and (v / 2 ^ 6) 31) ∷ bit_or 128 (bit_and v 63) ∷ [])
      ≡ (some v, at_rest v)
unfolding decode_byte
decode-two n v lt =
    let high : bit_and (v / 2 ^ 6) 31 ≡ v / 64 = ground (arith, bit_and-mask 5 (v / 64)) in
    let back : v / 64 * 64 + v % 64 ≡ v = omega arith in
    rw high (
      decode-pending (at_rest n) (record { num = v / 64; state = 1 }) _ _
        (head_two n (v / 64) (omega arith))
      ∙ decode-last (v / 64) v (omega arith)
      ∙ (rw back refl))

decode-three :
    (n v : ℕ)
    → v < 65536
    → decode (at_rest n) (
        bit_or 224 (bit_and (v / 2 ^ 12) 15)
        ∷ bit_or 128 (bit_and (v / 2 ^ 6) 63)
        ∷ bit_or 128 (bit_and v 63)
        ∷ [])
      ≡ (some v, at_rest v)
unfolding decode_byte
decode-three n v lt =
    let high : bit_and (v / 2 ^ 12) 15 ≡ v / 4096 = ground (arith, bit_and-mask 4 (v / 4096)) in
    let mid : ℕ = v / 4096 * 64 + v / 64 % 64 in
    let back : mid * 64 + v % 64 ≡ v = omega arith in
    rw high (
      decode-pending (at_rest n) (record { num = v / 4096; state = 2 }) _ _
        (head_three n (v / 4096) (omega arith))
      ∙ decode-more (v / 4096) 0 (v / 64) _ (omega arith)
      ∙ decode-last mid v (omega arith)
      ∙ (rw back refl))

decode-four :
    (n v : ℕ)
    → v < 1114112
    → decode (at_rest n) (
        bit_or 240 (bit_and (v / 2 ^ 18) 7)
        ∷ bit_or 128 (bit_and (v / 2 ^ 12) 63)
        ∷ bit_or 128 (bit_and (v / 2 ^ 6) 63)
        ∷ bit_or 128 (bit_and v 63)
        ∷ [])
      ≡ (some v, at_rest v)
unfolding decode_byte
decode-four n v lt =
    let high : bit_and (v / 2 ^ 18) 7 ≡ v / 262144 = ground (arith, bit_and-mask 3 (v / 262144)) in
    let mid : ℕ = v / 262144 * 64 + v / 4096 % 64 in
    let more : ℕ = mid * 64 + v / 64 % 64 in
    let back : more * 64 + v % 64 ≡ v = omega arith in
    rw high (
      decode-pending (at_rest n) (record { num = v / 262144; state = 3 }) _ _
        (head_four n (v / 262144) (omega arith))
      ∙ decode-more (v / 262144) 1 (v / 4096) _ (omega arith)
      ∙ decode-more mid 0 (v / 64) _ (omega arith)
      ∙ decode-last more v (omega arith)
      ∙ (rw back refl))

abbrev Decodes : ℕ → List ℕ → ℕ → Type 0
Decodes num bytes value =
    ((decode (at_rest num) bytes).0 ≡ some value) × ((decode (at_rest num) bytes).1.state ≡ 0)

Decodes-of :
    (num : ℕ) (bytes : List ℕ) (value : ℕ)
    → decode (at_rest num) bytes ≡ (some value, at_rest value)
    → Decodes num bytes value
Decodes-of num bytes value h = (ap (λ p. p.0) h, ap (λ p. p.1.state) h)

decode-one : (num v : ℕ) → v < 128 → Decodes num (v ∷ []) v
unfolding decode decode_byte start_byte
decode-one num v lt = rw (lt→ltb v 128 lt) (refl, refl)

-- A decoder at rest, whatever it decoded before, decodes the bytes of every value below 0x110000, in
-- one to four bytes, to that value, and is at rest again.
pub decode-encode :
    (num value : ℕ)
    → value < 1114112
    → ((decode (at_rest num) (encode value)).0 ≡ some value)
      × ((decode (at_rest num) (encode value)).1.state ≡ 0)
unfolding encode
decode-encode num value lt =
    let valid : leb 1114112 value ≡ false = ground arith in
    rw valid (elim (Bool-cases (leb 65536 value)) [
      | inl four ↦ rw four (Decodes-of num _ value (decode-four num value lt))
      | inr below₄ ↦ rw below₄ (elim (Bool-cases (leb 2048 value)) [
        | inl three ↦
            rw three (Decodes-of num _ value (decode-three num value (ground (arith, below₄))))
        | inr below₃ ↦ rw below₃ (elim (Bool-cases (leb 128 value)) [
          | inl two ↦
              rw two (Decodes-of num _ value (decode-two num value (ground (arith, below₃))))
          | inr one ↦ rw one (decode-one num value (ground (arith, one)))
        ])
      ])
    ])
