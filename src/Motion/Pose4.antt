-- ===== src/Motion/Pose4.antt =====
-- EDM/Motion/Pose4.h: the pose of the two wire guides; and the functions of <cmath> that the motion
-- calls, as a parameter of the model.
use fluid_edm.Base.Float.{Float, nought}

pub record Cmath (F : Type 0) : Type 0 where
  pub hypot : F → F → F
  pub sqrt : F → F
  pub floor : F → F
  pub cos : F → F
  pub sin : F → F
  pub atan2 : F → F → F
  pub fmax : F → F → F

pub record Pose4 (F : Type 0) : Type 0 where
  pub x : F
  pub y : F
  pub u : F
  pub v : F

module _ {F : Type 0} ⦃f : Float F⦄ where
  open f use {add, sub, mul}

  abbrev pub origin : Pose4 F
  origin = record { x = nought; y = nought; u = nought; v = nought }

  abbrev pub lerp_pose : Pose4 F → Pose4 F → F → Pose4 F
  lerp_pose a b t = record {
    x = add a.x (mul (sub b.x a.x) t);
    y = add a.y (mul (sub b.y a.y) t);
    u = add a.u (mul (sub b.u a.u) t);
    v = add a.v (mul (sub b.v a.v) t);
  }

module _ {F : Type 0} ⦃f : Float F⦄ ⦃m : Cmath F⦄ where
  abbrev pub xy_chord : Pose4 F → Pose4 F → F
  xy_chord a b = m.hypot (f.sub b.x a.x) (f.sub b.y a.y)

  abbrev pub uv_chord : Pose4 F → Pose4 F → F
  uv_chord a b = m.hypot (f.sub b.u a.u) (f.sub b.v a.v)
