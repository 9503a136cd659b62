-- ===== src/Feed/Hx711.antt =====
-- EDM/Feed/Hx711.cpp, Hx711.h and Hx711Calibration.h: the driver of the load cell's converter. `F` is
-- the type of `float`. The levels of DOUT are a parameter, numbered by the clock pulses before them.
pub mod Samples
use fluid_edm.Base.{
  ℕ, zero, suc, ◌+◌, ◌-◌, ◌*◌, ◌/◌, ◌%◌, ◌^◌, Bool, true, false, not, if◌then◌else◌, ltb, ◌==◌,
  List, [], ◌∷◌, ◌++◌, bit_and, bit_or,
}
use fluid_edm.Base.Int.{ℤ, pos, negsuc, ◌+ℤ◌, neg, signed32, pattern32}
use fluid_edm.Base.Float.{Float}

abbrev pub sign_extend : ℕ → ℤ
sign_extend v24 =
    if not (bit_and v24 0x800000 == 0)
    then signed32 (bit_or v24 0xFF000000)
    else signed32 (bit_and v24 0x00FFFFFF)

pub record Hx711Calibration (F : Type 0) : Type 0 where
  pub offset : ℤ
  pub counts_per_n : F

pub record Hx711 (F : Type 0) : Type 0 where
  pub gain_pulses : ℕ
  pub channel_gain : ℤ
  pub cal : Hx711Calibration F

-- the loop of the data bits: how many are left, the number of the pulse, and the bits so far
unfoldable pub read_bits : (ℕ → Bool) → ℕ → ℕ → ℕ → ℕ
read_bits dout zero i v = v
read_bits dout (suc left) i v =
    read_bits dout left (suc i) (bit_or (v * 2 % 2 ^ 32) (if dout i then 1 else 0))

-- what is written to SCK for a number of pulses
abbrev pub clock_pulses : ℕ → List Bool
clock_pulses zero = []
clock_pulses (suc n) = true ∷ false ∷ clock_pulses n

-- The division of `int64_t` by a positive number, which rounds toward zero.
abbrev pub quotient : ℤ → ℕ → ℤ
quotient (pos n) d = pos (n / d)
quotient (negsuc n) d = neg (pos (suc n / d))

-- the loop of `tare` over the samples that `sample` numbers
unfoldable pub sum_samples : (ℕ → ℤ) → ℕ → ℤ
sum_samples sample zero = pos 0
sum_samples sample (suc n) = sum_samples sample n +ℤ sample n

-- `if (n < 1) n = 1`
abbrev pub tare_count : ℤ → ℕ
tare_count (pos zero) = 1
tare_count (pos (suc n)) = suc n
tare_count (negsuc n) = 1

-- the extra pulses that select a gain of 64, 32 or 128
unfoldable pub pulses_of : ℤ → ℕ
pulses_of (pos gain) = if gain == 64 then 3 else if gain == 32 then 2 else 1
pulses_of (negsuc n) = 1

-- DOUT low
abbrev pub data_ready : Bool → Bool
data_ready level = not level

module _ {F : Type 0} where
  -- The sample, and what is written to SCK.
  unfoldable pub read_raw : Hx711 F → (ℕ → Bool) → ℤ × List Bool
  read_raw h dout =
      (sign_extend (read_bits dout 24 0 0), clock_pulses 24 ++ clock_pulses h.gain_pulses)

  abbrev pub with_calibration : Hx711Calibration F → ℤ → F → Hx711Calibration F
  with_calibration cal new_offset new_counts = record {
    offset = new_offset;
    counts_per_n = new_counts;
  }

  -- `int32_t(sum / n)` is the new offset.
  unfoldable pub tare : Hx711 F → (ℕ → ℤ) → ℤ → Hx711 F
  tare h sample n =
      let count = tare_count n in
      let avg = signed32 (pattern32 (quotient (sum_samples sample count) count)) in
      record h { cal = with_calibration (h.cal) avg (h.cal.counts_per_n) }

  unfoldable pub after_parse : Hx711 F → Hx711 F
  after_parse h = record h { gain_pulses = pulses_of h.channel_gain }

module _ {F : Type 0} ⦃f : Float F⦄ where
  open f use {dec, of_int, sub, div}

  -- the in-class initialisers
  abbrev pub default_hx711 : Hx711 F
  default_hx711 = record {
    gain_pulses = 1;
    channel_gain = pos 128;
    cal = record { offset = pos 0; counts_per_n = dec 1000 0 };
  }

  unfoldable pub to_newtons : Hx711Calibration F → ℤ → F
  to_newtons cal raw = div (sub (of_int raw) (of_int cal.offset)) cal.counts_per_n
