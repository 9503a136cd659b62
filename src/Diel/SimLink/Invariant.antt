-- ===== src/Diel/SimLink/Invariant.antt =====
-- What holds of the simulated coolant loop after any calls.
use fluid_edm.Base.{◌^◌, ◌≤◌, ◌<◌, Bool, true, false, arith, length, bit_or, if◌then◌else◌}
use fluid_edm.Base.Int.{signed16-IsInt16, pattern16-lt}
use fluid_edm.Base.Float.{Float}
use fluid_edm.Diel.Messages.{SetDiel, IsDielStats}
use fluid_edm.Diel.SimLink.{
  SimDielLink, new_sim_diel, begin_sim_diel, set_cutting, set_sim_diel, tick_sim_diel, shown_stats,
  bar_table, flow_table,
}

-- one call of the simulator; a command carries a byte for the pump
pub data SimStep {F : Type 0} ⦃f : Float F⦄ : SimDielLink F → SimDielLink F → Type 0 where
  begins : (l : SimDielLink F) → SimStep l (begin_sim_diel l)
  cuts : (l : SimDielLink F) (on : Bool) → SimStep l (set_cutting l on)
  sets : (l : SimDielLink F) (s : SetDiel) → s.pump_on < 2 ^ 8 → SimStep l (set_sim_diel l s).0
  ticks : (l : SimDielLink F) → SimStep l (tick_sim_diel l)

pub data SimReach {F : Type 0} ⦃f : Float F⦄ : SimDielLink F → SimDielLink F → Type 0 where
  here : (l : SimDielLink F) → SimReach l l
  next : (a b c : SimDielLink F) → SimReach a b → SimStep b c → SimReach a c

pub record IsSimDiel {F : Type 0} ⦃f : Float F⦄ (l : SimDielLink F) : Type 0 where
  pub bar_index : l.flush_level < length (bar_table {F = F})
  pub flow_index : l.flush_level < length (flow_table {F = F})
  pub level_fits : l.level_pct ≤ 88
  pub filter_fits : l.filter_pct ≤ 96
  pub pump_fits : l.pump_on < 2 ^ 8
  pub window_fits : l.window < 2 ^ 32

flags-lt : (a b : Bool) → bit_or (if a then 0x0002 else 0) (if b then 0x0004 else 0) < 2 ^ 16
flags-lt true true = omega arith
flags-lt true false = omega arith
flags-lt false true = omega arith
flags-lt false false = omega arith

module _ {F : Type 0} ⦃f : Float F⦄ where
  step-IsSimDiel : (a b : SimDielLink F) → SimStep a b → IsSimDiel a → IsSimDiel b
  unfolding set_sim_diel tick_sim_diel
  step-IsSimDiel _ _ (begins a) v = ground arith
  step-IsSimDiel _ _ (cuts a on) v = ground arith
  step-IsSimDiel _ _ (sets a s p) v = ground arith
  step-IsSimDiel _ _ (ticks a) v = ground arith

  reach-IsSimDiel : (a b : SimDielLink F) → SimReach a b → IsSimDiel a → IsSimDiel b
  reach-IsSimDiel _ _ (here a) v = v
  reach-IsSimDiel _ _ (next a b c r s) v = step-IsSimDiel b c s (reach-IsSimDiel a b r v)

  shown-IsDielStats : (l : SimDielLink F) → IsSimDiel l → IsDielStats (shown_stats l)
  unfolding shown_stats
  shown-IsDielStats l v = record {
    window_id_fits = v.window_fits;
    pump_on_fits = v.pump_fits;
    flush_level_fits = omega (arith, v.bar_index);
    flush_mbar_fits = pattern16-lt _;
    flow_clpm_fits = pattern16-lt _;
    temp_dc_fits = signed16-IsInt16 _ (pattern16-lt _);
    temp_set_dc_fits = signed16-IsInt16 _ (pattern16-lt _);
    conductivity_us_fits = pattern16-lt _;
    level_pct_fits = omega (arith, v.level_fits);
    filter_pct_fits = omega (arith, v.filter_fits);
    flags_fits = flags-lt _ _;
  }

  new-IsSimDiel : IsSimDiel {F = F} new_sim_diel
  new-IsSimDiel = ground arith

  -- After any calls on a new simulator the flush level indexes both of its tables in bounds, the level
  -- is at most 88 percent, the filter at most 96, and the window that it publishes has every field in
  -- the range of its integer type; the pump's value in a command is a byte.
  pub reach-new-IsSimDiel :
      (l : SimDielLink F) → SimReach new_sim_diel l → IsSimDiel l × IsDielStats (shown_stats l)
  reach-new-IsSimDiel l r =
      let v = reach-IsSimDiel new_sim_diel l r new-IsSimDiel in (v, shown-IsDielStats l v)
