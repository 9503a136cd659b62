-- ===== src/Motion/ContourBuffer.antt =====
-- EDM/Motion/ContourBuffer.h and ContourBuffer.cpp: the vertices of the contour still needed, with
-- their arc lengths. A method that changes the buffer returns the new one.
pub mod Capacity
pub mod Search
pub mod Window
use fluid_edm.Base.{
  ℕ, zero, suc, ◌+◌, ◌-◌, ◌/◌, Bool, true, false, Option, none, some, List, [], ◌∷◌, ◌++◌, ltb, leb,
  ◌==◌, ◌&&◌, if◌then◌else◌, length, get_or, drop,
}
use fluid_edm.Base.Int.{ℤ, pos, pos_part}
use fluid_edm.Base.Float.{Float, nought, of_ℕ}
use fluid_edm.Motion.Pose4.{Pose4, Cmath, origin, lerp_pose, xy_chord, uv_chord}

pub record Vertex (F : Type 0) : Type 0 where
  pub pose : Pose4 F
  pub s : F

pub record ContourBuffer (F : Type 0) : Type 0 where
  pub vertices : List (Vertex F)
  pub cap : ℕ

abbrev pub max_vertices : ℕ
max_vertices = 256

abbrev pub new_contour : {F : Type 0} → ℕ → ContourBuffer F
new_contour cap = record { vertices = []; cap = cap }

module _ {F : Type 0} ⦃f : Float F⦄ where
  open f use {dec, add, sub, mul, div, fabs, lt, le, trunc}

  abbrev pub min_seg_len : F
  min_seg_len = dec 1 4

  -- what an index out of range would read; no operation reads one
  abbrev pub no_vertex : Vertex F
  no_vertex = record { pose = origin; s = nought }

  abbrev pub vertex_at : ContourBuffer F → ℕ → Vertex F
  vertex_at b i = get_or b.vertices i no_vertex

  abbrev pub count : ContourBuffer F → ℕ
  count b = length b.vertices

  abbrev pub front : ContourBuffer F → Vertex F
  front b = vertex_at b 0

  abbrev pub back : ContourBuffer F → Vertex F
  back b = vertex_at b (count b - 1)

  abbrev pub start_s : ContourBuffer F → F
  start_s b = if count b == 0 then nought else (front b).s

  abbrev pub total_len : ContourBuffer F → F
  total_len b = if count b == 0 then nought else (back b).s

  abbrev pub retract_floor : ContourBuffer F → F → F → F
  retract_floor b s_max retract_max_mm =
      let low = sub s_max retract_max_mm in if lt low (start_s b) then start_s b else low

  unfoldable pub reset_contour : ContourBuffer F → Pose4 F → F → ContourBuffer F
  reset_contour b start s0 = record b { vertices = record { pose = start; s = s0 } ∷ [] }

  unfoldable pub push_vertex : ContourBuffer F → Pose4 F → F → ContourBuffer F
  push_vertex b p s =
      let kept = if leb b.cap (count b) then drop 1 b.vertices else b.vertices in
      record b { vertices = kept ++ (record { pose = p; s = s } ∷ []) }

  -- the loop of `poseAt`, with fuel
  unfoldable pub search : ContourBuffer F → F → ℕ → ℕ → ℕ → ℕ × ℕ
  search b s zero lo hi = (lo, hi)
  search b s (suc fuel) lo hi =
      let mid = (lo + hi) / 2 in
      let upper = search b s fuel mid hi in
      let lower = search b s fuel lo mid in
      if ltb 1 (hi - lo) then (if le (vertex_at b mid).s s then upper else lower) else (lo, hi)

  -- the pose between the vertices of the indices lo and hi
  abbrev pub pose_between : ContourBuffer F → F → ℕ × ℕ → Pose4 F
  pose_between b s (lo, hi) =
      let a = vertex_at b lo in
      let c = vertex_at b hi in
      let seg = sub c.s a.s in
      lerp_pose a.pose c.pose (if lt nought seg then div (sub s a.s) seg else nought)

  unfoldable pub pose_at : ContourBuffer F → F → Pose4 F
  pose_at b s =
      if count b == 0
      then origin
      else if le s (front b).s
      then (front b).pose
      else if le (back b).s s
      then (back b).pose
      else pose_between b s (search b s (count b) 0 (count b - 1))

  -- the loop of `evictBelow` from index i on
  unfoldable pub last_below : F → List (Vertex F) → ℕ → ℕ → ℕ
  last_below s_floor [] i keep = keep
  last_below s_floor (w ∷ ws) i keep =
      let more = last_below s_floor ws (i + 1) i in if le w.s s_floor then more else keep

  unfoldable pub evict_below : ContourBuffer F → F → ContourBuffer F
  evict_below b s_floor =
      if leb (count b) 1
      then b
      else record b { vertices = drop (last_below s_floor b.vertices 0 0) b.vertices }

module _ {F : Type 0} ⦃f : Float F⦄ ⦃m : Cmath F⦄ where
  open f use {dec, of_int, add, sub, mul, div, fabs, lt, trunc}
  open m use {sqrt, floor, cos, sin, atan2}

  -- `ds`, the length of the chord from the last vertex
  unfoldable pub chord_length : ContourBuffer F → Pose4 F → F
  chord_length b end =
      let prev = (back b).pose in
      let xy = xy_chord prev end in if lt xy min_seg_len then uv_chord prev end else xy

  unfoldable pub append_line : ContourBuffer F → Pose4 F → ContourBuffer F
  append_line b end =
      let ds = chord_length b end in
      if count b == 0
      then record b { vertices = record { pose = end; s = nought } ∷ [] }
      else if lt ds min_seg_len
      then b
      else push_vertex b end (add (back b).s ds)

  -- the number of chords, `segs`
  unfoldable pub arc_segments : F → F → F → ℤ
  arc_segments radius angular_travel arc_tol =
      let denom = sqrt (mul arc_tol (sub (mul (dec 2 0) radius) arc_tol)) in
      let asked = trunc (floor (div (fabs (mul (mul (dec 5 1) angular_travel) radius)) denom)) in
      if lt nought arc_tol && (lt arc_tol radius && lt nought denom) then asked else pos 1

  -- the end of the chord i of segs
  abbrev pub arc_pose : Pose4 F → Pose4 F → F → F → F → F → ℕ → ℕ → Pose4 F
  arc_pose start end cx cy radius angular_travel segs i =
      let frac = div (of_ℕ i) (of_ℕ segs) in
      let theta0 = atan2 (sub start.y cy) (sub start.x cx) in
      let theta = add theta0 (mul angular_travel frac) in
      let last = i == segs in
      record {
        x = if last then end.x else add cx (mul radius (cos theta));
        y = if last then end.y else add cy (mul radius (sin theta));
        u = add start.u (mul (sub end.u start.u) frac);
        v = add start.v (mul (sub end.v start.v) frac);
      }

  -- `for (int i = 1; i <= segs; ++i)`, with the number of chords that remain
  unfoldable pub append_chords : ContourBuffer F → (ℕ → Pose4 F) → ℕ → ℕ → ContourBuffer F
  append_chords b pose i zero = b
  append_chords b pose i (suc more) = append_chords (append_line b (pose i)) pose (i + 1) more

  unfoldable pub append_arc : ContourBuffer F → Pose4 F → F → F → F → F → F → ContourBuffer F
  append_arc b end cx cy radius angular_travel arc_tol =
      let asked = pos_part (arc_segments radius angular_travel arc_tol) in
      let segs = if ltb asked 1 then 1 else asked in
      let start = (back b).pose in
      if count b == 0
      then b
      else append_chords b (arc_pose start end cx cy radius angular_travel segs) 1 segs
