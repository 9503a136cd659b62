-- ===== src/Diel/SimLink.antt =====
-- EDM/Diel/SimDielLink.h and SimDielLink.cpp: the simulated coolant loop behind the same interface.
pub mod Invariant
use fluid_edm.Base.{
  ℕ, ◌+◌, ◌-◌, ◌%◌, ◌^◌, Bool, true, false, Option, none, some, List, [], ◌∷◌, ltb, ◌==◌, ◌&&◌,
  if◌then◌else◌, get_or, bit_or,
}
use fluid_edm.Base.Int.{signed16, pattern16}
use fluid_edm.Base.Float.{Float, nought, clampf}
use fluid_edm.Diel.Messages.{SetDiel, DielStats, no_diel_stats, IDielLink}

pub record SimDielLink (F : Type 0) : Type 0 where
  pub connected : Bool
  pub cutting : Bool
  pub seq : ℕ
  pub pump_on : ℕ
  pub flush_level : ℕ
  pub level_pct : ℕ
  pub filter_pct : ℕ
  pub flush_mbar : F
  pub flow_clpm : F
  pub temp_dc : F
  pub temp_set_dc : F
  pub cond_us : F
  pub window : ℕ

module _ {F : Type 0} ⦃f : Float F⦄ where
  open f use {dec, of_int, add, sub, mul, trunc}

  abbrev pub new_sim_diel : SimDielLink F
  new_sim_diel = record {
    connected = false;
    cutting = false;
    seq = 0;
    pump_on = 0;
    flush_level = 2;
    level_pct = 88;
    filter_pct = 96;
    flush_mbar = nought;
    flow_clpm = nought;
    temp_dc = dec 215 0;
    temp_set_dc = dec 220 0;
    cond_us = dec 6 0;
    window = 0;
  }

  abbrev pub begin_sim_diel : SimDielLink F → SimDielLink F
  begin_sim_diel l = record l { connected = true }

  abbrev pub set_cutting : SimDielLink F → Bool → SimDielLink F
  set_cutting l on = record l { cutting = on }

  unfoldable pub set_sim_diel : SimDielLink F → SetDiel → SimDielLink F × ℕ
  set_sim_diel l s =
      let n = (l.seq + 1) % 2 ^ 16 in
      (
        record l {
          pump_on = s.pump_on;
          flush_level = if ltb 3 s.flush_level then 3 else s.flush_level;
          temp_set_dc = of_int s.temp_setpoint_dc;
          seq = n;
        },
        n,
      )

  -- `barT` and `flowT`, arrays of four
  abbrev pub bar_table : List F
  bar_table = dec 0 0 ∷ dec 1400 0 ∷ dec 2600 0 ∷ dec 4200 0 ∷ []

  abbrev pub flow_table : List F
  flow_table = dec 40 0 ∷ dec 260 0 ∷ dec 460 0 ∷ dec 680 0 ∷ []

  abbrev pub lerpf : F → F → F → F
  lerpf a b t = add a (mul (sub b a) t)

  unfoldable pub tick_sim_diel : SimDielLink F → SimDielLink F
  tick_sim_diel l =
      let window = (l.window + 1) % 2 ^ 32 in
      if l.cutting
      then record l {
        window = window;
        pump_on = 1;
        flush_mbar = lerpf l.flush_mbar (get_or bar_table l.flush_level nought) (dec 2 1);
        flow_clpm = lerpf l.flow_clpm (get_or flow_table l.flush_level nought) (dec 2 1);
        temp_dc =
            clampf (lerpf l.temp_dc (add l.temp_set_dc (dec 6 0)) (dec 3 2)) (dec 160 0)
              (dec 340 0);
        cond_us = clampf (add l.cond_us (dec 4 2)) (dec 1 0) (dec 400 0);
        level_pct =
            if window % 2000 == 0 && ltb 0 l.level_pct then l.level_pct - 1 else l.level_pct;
      }
      else record l {
        window = window;
        pump_on = 0;
        flush_mbar = lerpf l.flush_mbar nought (dec 3 1);
        flow_clpm = lerpf l.flow_clpm nought (dec 3 1);
        temp_dc = lerpf l.temp_dc l.temp_set_dc (dec 2 2);
      }

  -- the window that `latestStats` fills in
  unfoldable pub shown_stats : SimDielLink F → DielStats
  shown_stats l =
      let flow = pattern16 (trunc (add l.flow_clpm (dec 5 1))) in
      record {
        window_id = l.window;
        pump_on = l.pump_on;
        flush_level = l.flush_level;
        flush_mbar = pattern16 (trunc (add l.flush_mbar (dec 5 1)));
        flow_clpm = flow;
        temp_dc = signed16 (pattern16 (trunc l.temp_dc));
        temp_set_dc = signed16 (pattern16 (trunc l.temp_set_dc));
        conductivity_us = pattern16 (trunc (add l.cond_us (dec 5 1)));
        level_pct = l.level_pct;
        filter_pct = l.filter_pct;
        flags =
            bit_or (if ltb flow 100 then 0x0002 else 0) (if ltb l.level_pct 15 then 0x0004 else 0);
      }

  unfoldable pub latest_sim_diel_stats : SimDielLink F → Option DielStats
  latest_sim_diel_stats l = if l.connected then some (shown_stats l) else none

instance abbrev pub sim_diel_link : {F : Type 0} ⦃f : Float F⦄ → IDielLink (SimDielLink F)
sim_diel_link = record {
  set_diel = set_sim_diel;
  latest_stats = latest_sim_diel_stats;
  pop_event = λ l. none;
  is_connected = λ l. l.connected;
  protocol_compatible = λ l. l.connected;
  present = λ l. l.connected;
}
