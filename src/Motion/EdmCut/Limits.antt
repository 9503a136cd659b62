-- ===== src/Motion/EdmCut/Limits.antt =====
-- A cut whose contour leaves the soft limits.
use fluid_edm.Base.{
  ℕ, zero, suc, ◌+◌, ◌≡◌, refl, sym, if-elim, Bool, true, false, some, List, [], ◌∷◌, get_elem?,
  arith,
}
use mathlib.Core.Path.{subst}
use fluid_edm.Base.Float.{Float}
use fluid_edm.Motion.Pose4.{Cmath}
use fluid_edm.Motion.ContourBuffer.{Vertex, ContourBuffer}
use fluid_edm.Motion.EdmMotion.{
  request_stop, send_alarm, soft_limit, Pass, returned, fan_out, new_sampler,
}
use fluid_edm.Motion.EdmCut.{breaks_limit, run_checked}

module _ {F : Type 0} ⦃f : Float F⦄ where
  breaks_limit-get_elem :
      (invalid_line : List F → Bool) (mpos : ℕ → List F) (i j : ℕ) (vs : List (Vertex F))
      (v : Vertex F)
      → get_elem? vs j ≡ some v
      → invalid_line (fan_out v.pose (mpos (i + j))) ≡ true
      → breaks_limit invalid_line mpos i vs ≡ true
  unfolding breaks_limit
  breaks_limit-get_elem invalid_line mpos i j [] v h bad = cc
  breaks_limit-get_elem invalid_line mpos i zero (u ∷ vs) v h bad =
      let same : u ≡ v = cc in
      let this : i + 0 ≡ i = omega arith in
      let caught : invalid_line (fan_out u.pose (mpos i)) ≡ true =
        subst (λ (w : Vertex F). invalid_line (fan_out w.pose (mpos i)) ≡ true) (sym same)
          (subst (λ (n : ℕ). invalid_line (fan_out v.pose (mpos n)) ≡ true) this bad) in
      rw caught refl
  breaks_limit-get_elem invalid_line mpos i (suc j) (u ∷ vs) v h bad =
      let shift : i + suc j ≡ suc i + j = omega arith in
      let rest =
        breaks_limit-get_elem invalid_line mpos (suc i) j vs v h
          (subst (λ (n : ℕ). invalid_line (fan_out v.pose (mpos n)) ≡ true) shift bad) in
      if-elim (λ (t : Bool). t ≡ true) (invalid_line (fan_out u.pose (mpos i))) (λ caught. refl)
        (λ passed. rest)

module _ {F : Type 0} ⦃f : Float F⦄ ⦃m : Cmath F⦄ where
  -- If a vertex of the contour, at the machine position read for it, is outside the soft limits, no line
  -- is queued: the process is asked to stop, the soft-limit alarm is sent, and the result is false.
  pub run_checked-refused :
      (invalid_line : List F → Bool) (mpos : ℕ → List F) (contour : ContourBuffer F)
      (blocks start : ℕ) (passes : List (Pass F)) (i : ℕ) (v : Vertex F)
      → get_elem? contour.vertices i ≡ some v
      → invalid_line (fan_out v.pose (mpos i)) ≡ true
      → run_checked invalid_line mpos true contour blocks start passes
        ≡ (new_sampler, request_stop ∷ send_alarm soft_limit ∷ [], returned false)
  unfolding run_checked
  run_checked-refused invalid_line mpos contour blocks start passes i v h bad =
      let broken =
        breaks_limit-get_elem invalid_line mpos 0 i contour.vertices v h
          (subst (λ (n : ℕ). invalid_line (fan_out v.pose (mpos n)) ≡ true) (omega arith) bad) in
      rw broken refl
