-- ===== src/Control/Power.antt =====
-- Cutting power under the controller. What a link lets through to the supply is described by one
-- Boolean that its commands turn on and off; the two links of the program fill this interface.
pub mod Stages
pub mod Invariant
pub mod Interlock
pub mod CanLink
pub mod SimLink
use fluid_edm.Base.{ℕ, ◌≡◌, ◌⊎◌, inl, inr, refl, Bool, true, false, Option, some, arith, sym, ◌∙◌}
use fluid_edm.Base.Float.{Float}
use fluid_edm.Psu.Messages.{SetModeBounds}
use fluid_edm.Psu.Link.{IPsuLink, Event}
use fluid_edm.Control.Report.{EdmState, idle, stall_fault, fault}
use fluid_edm.Control.State.{EdmController}

-- What the calls of the controller do to the cutting power of the supply.
pub record IsPowerLink (L : Type 0) ⦃k : IPsuLink L⦄ : Type 0 where
  pub powered : L → Bool
  pub start_on : (l : L) → powered (k.start_cut l) ≡ true
  pub stop_off : (l : L) → powered (k.stop_cut l) ≡ false
  pub clear_same : (l : L) → powered (k.clear_fault l) ≡ powered l
  pub bounds_same : (l : L) (m : SetModeBounds) → powered (k.set_mode_bounds l m).0 ≡ powered l
  pub pop_same :
      (l : L) (e : Event) (l' : L) → k.pop_event l ≡ some (e, l') → powered l' ≡ powered l

-- the states in which no power may be on
abbrev pub is_quiet : EdmState → Bool
is_quiet idle = true
is_quiet stall_fault = true
is_quiet fault = true
is_quiet _ = false

-- In the states Idle, StallFault and Fault the cutting power is off.
abbrev pub IsSafe : {F L D : Type 0} ⦃k : IPsuLink L⦄ → IsPowerLink L → EdmController F L D → Type 0
IsSafe p c = (is_quiet c.state ≡ false) ⊎ (p.powered c.link ≡ false)

-- From `c` to `c'` the power is never turned on.
abbrev pub NoStart :
    {F L D : Type 0} ⦃k : IPsuLink L⦄
    → IsPowerLink L
    → EdmController F L D
    → EdmController F L D
    → Type 0
NoStart p c c' = (p.powered c'.link ≡ p.powered c.link) ⊎ (p.powered c'.link ≡ false)

pub NoStart-trans :
    {F L D : Type 0} ⦃k : IPsuLink L⦄ (p : IsPowerLink L) (a b c : EdmController F L D)
    → NoStart p a b
    → NoStart p b c
    → NoStart p a c
NoStart-trans p a b c h g = ground arith
