-- ===== src/Servo/ModeTable/Bands.antt =====
-- The bands of S-words, and the order of the modes by energy.
use fluid_edm.Base.{ℕ, ◌≤◌, ◌<◌, ◌≡◌, ◌↔◌, arith}
use fluid_edm.Servo.ModeTable.{
  EdmMode, idle, ignite, finish, rough, ModeTable, mode_for_sword, band_lo, band_hi,
}

-- The thresholds are 16-bit and do not wrap at `+ 1`, and rise.
pub record IsBanded (t : ModeTable) : Type 0 where
  pub ignite_below : 0 < t.ignite_max
  pub rising : t.ignite_max < t.finish_max
  pub finish_below : t.finish_max < 1000

-- For a rough band the upper end 1000 is only the end of the interpolation.
abbrev pub InBand : ModeTable → EdmMode → ℕ → Type 0
InBand t idle s = s ≡ 0
InBand t rough s = band_lo t rough ≤ s
InBand t m s = (band_lo t m ≤ s) × (s ≤ band_hi t m)

-- An S-word selects a mode exactly when it lies in the band that the setpoint is scaled over, with
-- no upper end for the rough mode; the thresholds rise and stay below 1000.
pub mode_for_sword_iff :
    (t : ModeTable) (s : ℕ) (m : EdmMode) → IsBanded t → (mode_for_sword t s ≡ m) ↔ InBand t m s
unfolding mode_for_sword
mode_for_sword_iff t s idle b = ground arith
mode_for_sword_iff t s ignite b = ground arith
mode_for_sword_iff t s finish b = ground arith
mode_for_sword_iff t s rough b = ground arith

abbrev pub energy : EdmMode → ℕ
energy idle = 0
energy ignite = 1
energy finish = 2
energy rough = 3

-- A larger S-word never selects a mode of less energy, whatever the thresholds.
pub mode_for_sword_mono :
    (t : ModeTable) (r s : ℕ) → r ≤ s → energy (mode_for_sword t r) ≤ energy (mode_for_sword t s)
unfolding mode_for_sword
mode_for_sword_mono t r s h = ground arith
