-- ===== src/Tests/Motion.antt =====
-- The contour and the sampler on concrete inputs; `float` runs in whole millionths, and the functions
-- of <cmath> are replaced by coarse ones.
use fluid_edm.Base.{ℕ, suc, ◌≡◌, ◌≤◌, ◌<◌, refl, Bool, List, true, false, [], ◌∷◌, arith}
use fluid_edm.Base.Int.{ℤ, pos}
use fluid_edm.Base.Float.{clampf}
use fluid_edm.Base.Fixed.{micros}
use fluid_edm.Motion.Pose4.{Pose4, Cmath, origin}
use fluid_edm.Motion.ContourBuffer.{
  ContourBuffer, new_contour, count, vertex_at, append_line, reset_contour, pose_at, pose_between,
}
use fluid_edm.Motion.ContourBuffer.Capacity.{here, next, resets, lines, buffer_bound}
use fluid_edm.Motion.ContourBuffer.Search.{pose_at-bracket}
use fluid_edm.Motion.PathSampler.{
  SamplerConfig, SamplerState, forward, sample, ramp, flush, advance, wanted, reaches_end,
}
use fluid_edm.Control.Report.{cutting, idle}
use fluid_edm.Motion.ContourBuffer.{
  append_arc, append_chords, push_vertex, arc_segments, chord_length,
}
use fluid_edm.Motion.ContourBuffer.Window.{IsWindow, append_arc-IsWindow}
use fluid_edm.Motion.EdmMotion.{Pass}

instance abbrev coarse : Cmath ℤ
coarse = record {
  hypot = λ a b. micros.add (micros.fabs a) (micros.fabs b);
  sqrt = λ a. a;
  floor = λ a. a;
  cos = λ a. a;
  sin = λ a. a;
  atan2 = λ a b. micros.dec 0 0;
  fmax = λ a b. b;
}

abbrev empty : ContourBuffer ℤ
empty = new_contour 2

abbrev start : ContourBuffer ℤ
start = reset_contour empty origin (pos 0)

abbrev corner : Pose4 ℤ
corner = record origin { x = pos 3_000_000 }

buffer_bound_example : ((append_line start corner).cap ≡ 2) × (count (append_line start corner) ≤ 2)
buffer_bound_example = buffer_bound 2 (append_line start corner) (omega arith) (
    next empty start (append_line start corner)
      (next empty empty start (here empty) (resets empty origin (pos 0))) (lines start corner))

abbrev path : ContourBuffer ℤ
path = record {
  vertices =
      record { pose = origin; s = pos 0 }
      ∷ record { pose = corner; s = pos 3_000_000 }
      ∷ record { pose = origin; s = pos 6_000_000 }
      ∷ [];
  cap = 256;
}

pose_at-bracket_example :
    (i : ℕ) × (suc i < count path)
    × (micros.le (vertex_at path i).s (pos 4_000_000) ≡ true)
    × (micros.le (vertex_at path (suc i)).s (pos 4_000_000) ≡ false)
    × (pose_at path (pos 4_000_000) ≡ pose_between path (pos 4_000_000) (i, suc i))
pose_at-bracket_example = pose_at-bracket path (pos 4_000_000) refl refl refl

abbrev config : SamplerConfig ℤ
config = record {
  dt_min_s = micros.dec 5 4;
  dt_max_s = micros.dec 2 2;
  seg_min_mm = micros.dec 2 2;
  seg_max_mm = micros.dec 15 2;
  a_max_mm_s2 = micros.dec 200 0;
  v_max_mm_s = micros.dec 1 1;
  v_floor_um_s = 5;
  retract_max_mm = micros.dec 3 0;
  eps_end_mm = micros.dec 1 4;
  feed_floor_mm_min = micros.dec 5 1;
}

-- almost at the end of the contour
abbrev late : SamplerState ℤ
late = record {
  s = pos 5_999_900;
  s_max = pos 5_999_900;
  s_emit = pos 5_900_000;
  v_mm_s = pos 50_000;
  dir = forward;
  done = false;
}

late_done : (sample path config late (pos 50) (pos 10_000)).0.done ≡ true
unfolding sample ramp flush advance wanted reaches_end clampf pose_at
late_done = refl

-- A first pass where the servo advances, and one where the process has stopped.
abbrev advancing : Pass ℤ
advancing = record {
  abort = false;
  alarm = false;
  es = cutting;
  running = true;
  now = 10;
  v = pos 50;
  polls = record { free_blocks = 15; full = false; abort = false; alarm = false } ∷ [];
  mpos = [];
  accepted = true;
}

abbrev stopping : Pass ℤ
stopping = record advancing { es = idle }

-- no line beyond one millimetre
abbrev too_far : List ℤ → Bool
too_far (x ∷ xs) = micros.lt (pos 1_000_000) x
too_far [] = false

abbrev at_home : ℕ → List ℤ
at_home i = pos 0 ∷ []

-- a buffer for two vertices, and one for all
abbrev unlimited : ContourBuffer ℤ
unlimited = reset_contour (new_contour 100) origin (pos 0)

-- fifteen chords
abbrev bowed : ContourBuffer ℤ → ContourBuffer ℤ
bowed b = append_arc b corner (pos 0) (pos 0) (pos 1_000_000) (pos 6_000_000) (pos 100_000)

append_arc-IsWindow_example : IsWindow (bowed start) (bowed unlimited)
unfolding reset_contour arc_segments
append_arc-IsWindow_example =
    append_arc-IsWindow start unlimited corner (pos 0) (pos 0) (pos 1_000_000) (pos 6_000_000)
      (pos 100_000) (omega arith) (refl, omega arith, omega arith)

bowed_counts : (count (bowed start) ≡ 2) × (count (bowed unlimited) ≡ 16)
unfolding append_arc append_chords append_line push_vertex reset_contour arc_segments chord_length
bowed_counts = (refl, refl)
