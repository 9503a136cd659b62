-- ===== src/Motion/EdmMotion/Exit.antt =====
-- How the loop of `runContour` ends, and what it has done then.
use fluid_edm.Base.{ℕ, ◌≡◌, true, false, List, [], ◌∷◌, ◌++◌}
use fluid_edm.Base.Float.{Float}
use fluid_edm.Motion.Pose4.{Cmath}
use fluid_edm.Motion.ContourBuffer.{ContourBuffer}
use fluid_edm.Motion.PathSampler.{SamplerState}
use fluid_edm.Motion.EdmMotion.{PlanLine, Effect, synchronize, Finish, going, returned}
use fluid_edm.Motion.EdmMotion.Turns.{queue_all, GivesUp, Queues}

module _ {F : Type 0} ⦃f : Float F⦄ ⦃m : Cmath F⦄ (contour : ContourBuffer F) (blocks : ℕ) where
  -- what holds of a run, by its end, where `lines` are due
  abbrev pub Ends : List (PlanLine F) → SamplerState F × List (Effect F) × Finish → Type 0
  Ends lines (last, effects, going) = Queues lines effects []
  Ends lines (last, effects, returned true) =
      (effects ≡ queue_all lines ++ (synchronize ∷ [])) × (last.done ≡ true)
  Ends lines (last, effects, returned false) =
      (ending : List (Effect F)) × GivesUp ending × Queues lines effects ending
