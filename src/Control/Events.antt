-- ===== src/Control/Events.antt =====
-- `EdmController::drainEvents`: at most eight queued events of the power supply in one tick.
use fluid_edm.Base.{ℕ, zero, suc, Option, none, some, ltb, leb, ◌==◌, if◌then◌else◌}
use fluid_edm.Base.Float.{Float, nought}
use fluid_edm.Psu.Messages.{WireBreakImminent}
use fluid_edm.Psu.Link.{IPsuLink, Event, wire_break, fault_evt, arc_burst_evt, info}
use fluid_edm.Servo.ModeTable.{ignite, lower_energy}
use fluid_edm.Control.Report.{break_relief_state, psu_fault}
use fluid_edm.Control.State.{EdmController, add32, enter_fault, maybe_send_mode_bounds}

-- `int budget = 8`
abbrev pub event_budget : ℕ
event_budget = 8

module _ {F L D : Type 0} ⦃f : Float F⦄ ⦃k : IPsuLink L⦄ where
  open f use {dec}

  -- the branch of a wire-break warning
  unfoldable pub on_wire_break : EdmController F L D → WireBreakImminent → EdmController F L D
  on_wire_break c w =
      let sev = if ltb c.wire_break_sev w.severity then w.severity else c.wire_break_sev in
      let warned = record c {
        wire_break_sev = sev;
        sev_clear_after = add32 c.now c.timers.clear;
      } in
      if leb 3 sev
      then maybe_send_mode_bounds (record warned {
        feed_cap_mult = nought;
        state = break_relief_state;
        break_relief_until = add32 c.now c.timers.break_relief;
        mode = ignite;
      })
      else if sev == 2
      then maybe_send_mode_bounds
          (record warned { feed_cap_mult = dec 3 1; mode = lower_energy c.mode })
      else record warned { feed_cap_mult = dec 6 1 }

  -- One turn of the loop on what `popEvent` gave; `rest` is the loop's remainder. A fault ends it.
  abbrev pub drain_step :
      (EdmController F L D → EdmController F L D)
      → EdmController F L D
      → Option (Event × L)
      → EdmController F L D
  drain_step rest c none = c
  drain_step rest c (some (fault_evt e, l)) = enter_fault (record c { link = l }) psu_fault
  drain_step rest c (some (wire_break w, l)) = rest (on_wire_break (record c { link = l }) w)
  drain_step rest c (some (arc_burst_evt a, l)) = rest (record c { link = l })
  drain_step rest c (some (info t, l)) = rest (record c { link = l })

  unfoldable pub drain : ℕ → EdmController F L D → EdmController F L D
  drain zero c = c
  drain (suc n) c = drain_step (drain n) c (k.pop_event c.link)
