-- ===== src/Spindle/Stop.antt =====
-- Which spindle speeds stop a cut.
use fluid_edm.Base.{
  ℕ, ◌%◌, ◌^◌, ◌≡◌, ◌⊎◌, inl, inr, refl, true, false, some, ◌==◌, ◌||◌, arith, Bool-cases,
}
use fluid_edm.Base.Float.{Float}
use fluid_edm.Psu.Link.{IPsuLink}
use fluid_edm.Servo.ModeTable.{mode_for_sword, idle as idle_mode}
use fluid_edm.Control.Report.{idle}
use fluid_edm.Control.State.{EdmController, is_fault_state, request_stop, request_cut}
use fluid_edm.Realtime.{SpindleState, is_disable}
use fluid_edm.Spindle.{EdmSpindle, set_state}

low_word :
    (state : SpindleState) (speed : ℕ)
    → (speed % 2 ^ 16 ≡ 0) ⊎ (is_disable state ≡ true)
    → (is_disable state || speed == 0) ≡ false
    → speed % 2 ^ 16 ≡ 0
low_word state speed (inl zeroes) on = zeroes
low_word state speed (inr off) on = ground (arith, off, on)

module _ {F L D : Type 0} ⦃f : Float F⦄ ⦃k : IPsuLink L⦄ where
  request_cut-zero :
      (c : EdmController F L D)
      → is_fault_state c.state ≡ false
      → request_cut c 0 ≡ request_stop (record c { s_word = 0; mode = idle_mode })
  unfolding request_cut mode_for_sword
  request_cut-zero c h = rw h refl

  -- Outside of a fault, a spindle speed whose low 16 bits are zero stops the cut, whatever the state
  -- asked for is: the controller is idle in the idle mode, and its link was told to stop. So does
  -- disabling the spindle, at any speed.
  pub set_state-stops :
      (s : EdmSpindle F L D) (c : EdmController F L D) (state : SpindleState) (speed : ℕ)
      → s.ctl ≡ some c
      → is_fault_state c.state ≡ false
      → (speed % 2 ^ 16 ≡ 0) ⊎ (is_disable state ≡ true)
      → (stopped : EdmController F L D) × ((set_state s state speed).ctl ≡ some stopped)
        × (stopped.state ≡ idle)
        × (stopped.mode ≡ idle_mode)
        × (stopped.link ≡ k.stop_cut c.link)
  unfolding set_state request_stop
  set_state-stops s c state speed e h low = elim (Bool-cases (is_disable state || speed == 0)) [
    | inl off ↦ (request_stop c, rw (set_state, e, off) refl, refl, refl, refl)
    | inr on ↦
        let chosen = record c { s_word = 0; mode = idle_mode } in
        let same : request_cut c (speed % 2 ^ 16) ≡ request_stop chosen =
          rw (low_word state speed low on) (request_cut-zero c h) in
        (request_stop chosen, rw (set_state, e, on, same) refl, refl, refl, refl)
  ]
