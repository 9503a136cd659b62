-- ===== src/Feed/Hx711/Samples.antt =====
-- What a sample of the load cell's converter stands for.
use fluid_edm.Base.{
  ℕ, zero, suc, ◌+◌, ◌-◌, ◌*◌, ◌/◌, ◌%◌, ◌^◌, ◌<◌, ◌≡◌, sym, ap, ◌∙◌, Bool, true, false,
  if◌then◌else◌, ◌==◌, List, ◌∷◌, ◌++◌, arith, bit_and, bit_or,
}
use native.Mathlib.Nat.{pow-suc, div-div-eq-div-mul, div-le_self}
use fluid_edm.Base.Bits.{bit_and-mask, bit_and-high, bit_or-shift, bit_or_comm}
use fluid_edm.Base.Int.{ℤ, pos, negsuc}
use fluid_edm.Feed.Hx711.{Hx711, sign_extend, clock_pulses, read_bits, read_raw}

-- The values of the converter, and their 24 bits.
abbrev pub IsInt24 : ℤ → Type 0
IsInt24 (pos n) = n < 2 ^ 23
IsInt24 (negsuc n) = n < 2 ^ 23

abbrev pub pattern24 : ℤ → ℕ
pattern24 (pos n) = n
pattern24 (negsuc n) = 2 ^ 24 - 1 - n

-- the bits of a word from the highest of 24 on, as the converter clocks them out
abbrev pub sent : ℕ → ℕ → Bool
sent word i = word / 2 ^ (23 - i) % 2 == 1

halve : (word n : ℕ) → word / 2 ^ suc n ≡ word / 2 ^ n / 2
halve word n =
    (ap (λ (t : ℕ). word / t) (pow-suc 2 n ∙ omega arith)) ∙ sym (div-div-eq-div-mul word (2 ^ n) 2)

read_bit :
    (word n : ℕ)
    → word < 2 ^ 24
    → bit_or (word / 2 ^ suc n * 2 % 2 ^ 32) (if word / 2 ^ n % 2 == 1 then 1 else 0) ≡ word / 2 ^ n
read_bit word n fits =
    let bound = div-le_self word (2 ^ n) in
    let bit : ℕ = if word / 2 ^ n % 2 == 1 then 1 else 0 in
    ground (
      arith,
      halve word n,
      bound,
      bit_or_comm (word / 2 ^ suc n * 2) bit,
      bit_or-shift 1 bit (word / 2 ^ suc n),
    )

read_bits-sent :
    (word left i : ℕ)
    → word < 2 ^ 24
    → i + left ≡ 24
    → read_bits (sent word) left i (word / 2 ^ left) ≡ word
unfolding read_bits
read_bits-sent word zero i fits all = omega arith
read_bits-sent word (suc left) i fits all =
    let here : 23 - i ≡ left = omega arith in
    rw (here, read_bit word left fits) (read_bits-sent word left (suc i) fits (omega arith))

sign_extend-pattern24 : (v : ℤ) → IsInt24 v → sign_extend (pattern24 v) ≡ v
sign_extend-pattern24 (pos n) h =
    let sign : bit_and n (2 ^ 23) ≡ 0 = ground (arith, bit_and-high 23 n 0 1) in
    let low : bit_and n (2 ^ 24 - 1) ≡ n = ground (arith, bit_and-mask 24 n) in
    rw (sign, low) (ground arith)
sign_extend-pattern24 (negsuc n) h =
    let rest : ℕ = 2 ^ 23 - 1 - n in
    let word : 2 ^ 24 - 1 - n ≡ rest + 1 * 2 ^ 23 = omega arith in
    let sign : bit_and (2 ^ 24 - 1 - n) (1 * 2 ^ 23) ≡ 2 ^ 23 =
      rw word (bit_and-high 23 rest 1 1 (omega arith)) in
    let whole : bit_or (2 ^ 24 - 1 - n) (255 * 2 ^ 24) ≡ 2 ^ 24 - 1 - n + 255 * 2 ^ 24 =
      bit_or-shift 24 (2 ^ 24 - 1 - n) 255 (omega arith) in
    rw (sign, whole) (ground arith)

pattern24-lt : (v : ℤ) → IsInt24 v → pattern24 v < 2 ^ 24
pattern24-lt (pos n) h = omega arith
pattern24-lt (negsuc n) h = omega arith

clock_pulses-add : (a b : ℕ) → clock_pulses a ++ clock_pulses b ≡ clock_pulses (a + b)
clock_pulses-add zero b = ap clock_pulses (omega arith)
clock_pulses-add (suc a) b =
    let one_more : suc a + b ≡ suc (a + b) = omega arith in
    rw one_more (ap (λ (l : List Bool). true ∷ false ∷ l) (clock_pulses-add a b))

-- The driver reads every value of the converter from its 24 bits, the highest first, whatever gain is
-- selected, and writes 24 clock pulses and those of the gain.
pub read_raw-sent :
    {F : Type 0} (h : Hx711 F) (v : ℤ)
    → IsInt24 v
    → read_raw h (sent (pattern24 v)) ≡ (v, clock_pulses (24 + h.gain_pulses))
unfolding read_raw
read_raw-sent h v is24 =
    let fits = pattern24-lt v is24 in
    let none : pattern24 v / 2 ^ 24 ≡ 0 = omega (arith, fits) in
    let bits : read_bits (sent (pattern24 v)) 24 0 0 ≡ pattern24 v =
      ap (read_bits (sent (pattern24 v)) 24 0) (sym none)
      ∙ read_bits-sent (pattern24 v) 24 0 fits (omega arith) in
    ap (λ (raw : ℤ). (raw, clock_pulses 24 ++ clock_pulses h.gain_pulses))
      (ap sign_extend bits ∙ sign_extend-pattern24 v is24)
    ∙ ap (λ (writes : List Bool). (v, writes)) (clock_pulses-add 24 (h.gain_pulses))
