-- ===== src/Control/Tick.antt =====
-- `EdmController::tick`, second part: the servo stage, the snapshot, and the whole tick.
use fluid_edm.Base.{
  ℕ, ◌+◌, ◌*◌, ◌/◌, ◌%◌, ◌^◌, Bool, true, false, Option, none, some, ltb, leb, ◌&&◌, ◌||◌, not,
  if◌then◌else◌,
}
use fluid_edm.Base.Int.{ℤ, pos, signed16, pattern16, pattern32}
use fluid_edm.Base.Float.{Float, nought, one, of_ℕ}
use fluid_edm.Psu.Messages.{StatsAgg}
use fluid_edm.Psu.Link.{IPsuLink}
use fluid_edm.Diel.Messages.{IDielLink}
use fluid_edm.Servo.GapServo.{
  ServoState, hold, retract, arc_hold, GapServoInput, GapServoOutput, step,
}
use fluid_edm.Servo.ModeTable.{params}
use fluid_edm.Control.Report.{
  EdmState, touch_off, cutting, hold_state, break_relief_state, stall_fault, touch_off_no_contact,
  servo_stall, EdmReport, state_code, reason_code, servo_code,
}
use fluid_edm.Control.State.{EdmController, sub32, enter_fault}
use fluid_edm.Control.Events.{drain, event_budget}
use fluid_edm.Control.Stages.{
  Readings, readings, note_window, report_diel, check_link, check_diel, run_armed, end_relief,
  clear_severity,
}

-- n_normal + n_arc + n_short + n_open, a sum of four 16-bit counts
abbrev pub pulses : StatsAgg → ℕ
pulses s = s.n_normal + s.n_arc + s.n_short + s.n_open

-- `uint16_t(N > 65535 ? 65535 : N)`
abbrev pub total16 : ℕ → ℕ
total16 n = if ltb 65535 n then 65535 else n

abbrev pub is_touch_off : EdmState → Bool
is_touch_off touch_off = true
is_touch_off _ = false

abbrev pub is_break_relief : EdmState → Bool
is_break_relief break_relief_state = true
is_break_relief _ = false

abbrev pub is_cutting_or_hold : EdmState → Bool
is_cutting_or_hold cutting = true
is_cutting_or_hold hold_state = true
is_cutting_or_hold _ = false

abbrev pub is_cutting : EdmState → Bool
is_cutting cutting = true
is_cutting _ = false

abbrev pub is_hold : EdmState → Bool
is_hold hold_state = true
is_hold _ = false

-- `out.state == Hold || out.state == ArcHold` and `out.state == Retract || out.state == Hold`
abbrev pub is_holding : ServoState → Bool
is_holding hold = true
is_holding arc_hold = true
is_holding _ = false

abbrev pub is_stalling : ServoState → Bool
is_stalling retract = true
is_stalling hold = true
is_stalling _ = false

module _ {F : Type 0} ⦃f : Float F⦄ where
  open f use {dec, mul, lround}

  abbrev pub milli : F → ℤ
  milli x = signed16 (pattern16 (lround (mul x (dec 1000 0))))

  -- the part of the snapshot that depends on whether the servo ran
  abbrev pub report_servo : Readings → EdmReport → Option (GapServoOutput F) → EdmReport
  report_servo r p none = record p { servo_state = servo_code hold; v_cmd_um_s = pos 0 }
  report_servo r p (some out) =
      let n = pulses r.stats in
      let q = record p {
        servo_state = servo_code out.state;
        v_cmd_um_s = out.v_s_um_s;
        g_milli = milli out.g_telemetry;
        g_target_milli = milli out.g_target;
        e_filtered_milli = milli out.e_filtered;
        integrator_milli = milli out.integrator;
      } in
      if ltb 0 n
      then record q {
        open_ratio_milli = signed16 (r.stats.n_open * 1000 / n % 2 ^ 16);
        short_ratio_milli = signed16 (r.stats.n_short * 1000 / n % 2 ^ 16);
        arc_ratio_milli = signed16 (r.stats.n_arc * 1000 / n % 2 ^ 16);
        total_pulses = total16 n;
      }
      else q

module _ {F L D : Type 0} ⦃f : Float F⦄ ⦃k : IPsuLink L⦄ ⦃d : IDielLink D⦄ where
  open f use {dec, add, sub, mul, div, lt, le, trunc}

  unfoldable pub build_input : EdmController F L D → StatsAgg → Bool → GapServoInput F
  build_input c s fresh =
      let n = pulses s in
      let valid = fresh && leb c.servo.n_min n in
      let nom = of_ℕ (params c.modes c.mode).ign_delay_nom_ns in
      let ratio = λ (count : ℕ). if valid then div (of_ℕ count) (of_ℕ n) else nought in
      record {
        valid = valid;
        open_ratio = ratio s.n_open;
        short_ratio = ratio s.n_short;
        arc_ratio = ratio s.n_arc;
        normal_ratio = ratio s.n_normal;
        ign_delay_norm =
            if valid && lt nought nom
            then div (sub (of_ℕ s.ignition_delay_mean_ns) nom) nom
            else nought;
        total_pulses = total16 n;
        feed_cap_mult = c.feed_cap_mult;
        in_touch_off = is_touch_off c.state;
        force_break_relief = is_break_relief c.state;
      }

  -- the branch of the state TouchOff: two shorted-enough windows in a row are contact
  unfoldable pub run_touch_off : EdmController F L D → GapServoInput F → EdmController F L D
  unfolding enter_fault
  run_touch_off c inp =
      let contig = (c.touchoff_contig + 1) % 2 ^ 8 in
      let c' =
        if inp.valid && lt (dec 5 1) (sub one inp.open_ratio)
        then (if leb 2 contig
            then record c {
              touchoff_contig = contig;
              state = cutting;
              servo_state = record c.servo_state { integ = nought };
            }
            else record c { touchoff_contig = contig })
        else record c { touchoff_contig = 0 } in
      if ltb c.timers.touchoff_budget (sub32 c.now c.touchoff_start)
      then enter_fault c' touch_off_no_contact
      else c'

  -- five windows of open gap in a row: back to TouchOff
  unfoldable pub watch_gap : EdmController F L D → GapServoInput F → EdmController F L D
  watch_gap c inp =
      let lost = (c.lostgap_contig + 1) % 2 ^ 8 in
      if inp.valid && lt (dec 95 2) inp.open_ratio
      then (if leb 5 lost
          then record c {
            lostgap_contig = lost;
            state = touch_off;
            touchoff_start = c.now;
            touchoff_contig = 0;
          }
          else record c { lostgap_contig = lost })
      else record c { lostgap_contig = 0 }

  -- `if (_state == Cutting) { _state = Hold; _stall_since = now_ms; }`
  unfoldable pub start_hold : EdmController F L D → EdmController F L D
  start_hold c =
      if is_cutting c.state then record c { state = hold_state; stall_since = c.now } else c

  -- the hold and stall logic of the states Cutting and Hold
  unfoldable pub watch_stall :
      EdmController F L D → GapServoInput F → GapServoOutput F → EdmController F L D
  watch_stall c inp out =
      let advancing = lt nought out.v_cmd_mm_min in
      let healthy =
        inp.valid
        && (le inp.short_ratio (mul c.servo.short_ref (dec 2 0))
            && le inp.arc_ratio c.servo.arc_brake) in
      let held = start_hold c in
      if is_holding out.state || le out.v_cmd_mm_min nought
      then (if healthy
          then record held { stall_since = c.now }
          else if not advancing
              && (ltb c.timers.stall (sub32 c.now held.stall_since) && is_stalling out.state)
          then record held {
            link = k.stop_cut held.link;
            state = stall_fault;
            reason = servo_stall;
          }
          else held)
      else if is_hold c.state
      then record c { state = cutting }
      else c

  -- The servo stage: the new controller, and the servo's output if the servo ran.
  abbrev pub servo_input : Readings → EdmController F L D → GapServoInput F
  servo_input r c =
      let inp = build_input c r.stats r.fresh in
      if r.stale_hold then record inp { valid = false } else inp

  -- the servo's output applied in the state that the tick is in
  unfoldable pub apply_servo :
      EdmController F L D
      → GapServoInput F
      → GapServoOutput F
      → EdmController F L D × Option (GapServoOutput F)
  apply_servo c inp out =
      let c' = record c { servo_state = out.next } in
      if is_touch_off c.state
      then (run_touch_off c' inp, some out)
      else if is_cutting_or_hold c.state
      then (watch_stall (watch_gap c' inp) inp out, some out)
      else if is_break_relief c.state
      then (c', some out)
      else (c, none)

  unfoldable pub run_servo :
      Readings → EdmController F L D → EdmController F L D × Option (GapServoOutput F)
  run_servo r c = let inp = servo_input r c in apply_servo c inp (step c.servo c.servo_state inp)

  unfoldable pub write_report :
      Readings → EdmController F L D → Option (GapServoOutput F) → EdmController F L D
  write_report r c out =
      let s = r.stats in
      let p = record c.report {
        window_id = s.window_id;
        psu_state = s.state;
        connected = r.connected;
        protocol_ok = r.proto;
        last_ack_status = k.last_ack_status c.link;
        controller_state = state_code c.state;
        fault_reason = reason_code c.reason;
        active_mode_id = (params c.modes c.mode).mode_id;
        s_word = c.s_word;
        n_normal = s.n_normal;
        n_arc = s.n_arc;
        n_short = s.n_short;
        n_open = s.n_open;
      } in
      let q = report_servo r p out in
      record c {
        report = record q {
          feed_cap_pct =
              pattern32 (trunc (add (mul c.feed_cap_mult (dec 100 0)) (dec 5 1))) % 2 ^ 8;
          wire_break_sev = c.wire_break_sev;
          peak_i_mean_da = s.peak_i_mean_da;
          peak_i_max_da = s.peak_i_max_da;
          energy_delivered_uj = s.energy_delivered_uj;
          temp_gan_dc = s.temp_gan_dc;
          temp_l_dc = s.temp_l_dc;
          dc_link_v_dv = s.dc_link_v_dv;
          flags = s.flags;
        };
      }

  -- everything between the reads and the servo stage
  unfoldable pub prepare : Readings → EdmController F L D → EdmController F L D
  prepare r c =
      clear_severity
        (end_relief (run_armed r (check_diel r (check_link r (report_diel r (note_window c))))))

  -- the controller once the queued events are drained, at the time of the tick
  unfoldable pub drained : EdmController F L D → ℕ → EdmController F L D
  drained c now_ms = drain event_budget (record c { now = now_ms })

  unfoldable pub tick : EdmController F L D → ℕ → EdmController F L D
  tick c now_ms =
      let c1 = drained c now_ms in
      let r = readings c1 in let (c2, out) = run_servo r (prepare r c1) in write_report r c2 out
