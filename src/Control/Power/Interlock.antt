-- ===== src/Control/Power/Interlock.antt =====
-- What has to hold for a tick to turn the cutting power on, and what loss of the dielectric does.
use fluid_edm.Base.{
  ℕ, ◌≡◌, ◌≤◌, ◌⊎◌, inl, inr, refl, true, false, Option, none, some, arith, Bool-cases, ◌&&◌, ◌||◌,
  not, ◌∙◌,
}
use fluid_edm.Base.Float.{Float}
use fluid_edm.Psu.Link.{IPsuLink}
use fluid_edm.Diel.Messages.{DielStats, no_diel_stats, IDielLink}
use fluid_edm.Control.Report.{EdmState, armed}
use fluid_edm.Control.State.{EdmController}
use fluid_edm.Control.Stages.{
  Readings, readings, note_window, report_diel, check_link, check_diel, run_armed, end_relief,
  clear_severity, is_armed, is_some, get_default, diel_present_of, diel_stats_of, diel_ready_to_cut,
}
use fluid_edm.Control.Tick.{drained, prepare, run_servo, write_report, tick}
use fluid_edm.Control.Power.{IsPowerLink, IsSafe}
use fluid_edm.Control.Power.Stages.{
  drain-Keeps, check_link-Keeps, check_diel-Keeps, run_armed-IsSafe, end_relief-Keeps,
  clear_severity-Keeps, run_servo-Keeps,
}

-- The interlock of the dielectric: not required, no link, or a module that is there and has flow
-- and level enough.
abbrev pub CoolantReady : {F L D : Type 0} ⦃d : IDielLink D⦄ → EdmController F L D → Type 0
CoolantReady {D} ⦃d⦄ c =
    (c.diel_cfg.required ≡ false)
    ⊎ (c.diel ≡ none)
    ⊎ (x : D) × (s : DielStats) × (c.diel ≡ some x)
      × (d.present x ≡ true)
      × (d.latest_stats x ≡ some s)
      × (c.diel_cfg.flow_min_clpm ≤ s.flow_clpm)
      × (c.diel_cfg.level_min_pct ≤ s.level_pct)

armed_of : (s : EdmState) → is_armed s ≡ true → s ≡ armed
armed_of s h = ground arith

module _ {F L D : Type 0} ⦃f : Float F⦄ ⦃k : IPsuLink L⦄ ⦃d : IDielLink D⦄ where
  coolant_cases :
      (c : EdmController F L D) (x : D) (t : Option DielStats)
      → c.diel ≡ some x
      → d.latest_stats x ≡ t
      → not c.diel_cfg.required
          || is_some t
            && (d.present x && diel_ready_to_cut c.diel_cfg (get_default no_diel_stats t))
        ≡ true
      → CoolantReady c
  unfolding diel_ready_to_cut
  coolant_cases c x none e g h = inl (ground arith)
  coolant_cases c x (some s) e g h = elim (Bool-cases c.diel_cfg.required) [
    | inl need ↦ inr (inr (x, s, e, ground arith, g, ground arith, ground arith))
    | inr free ↦ inl free
  ]

  diel_ok_by :
      (c : EdmController F L D) (o : Option D)
      → c.diel ≡ o
      → not (is_some o && c.diel_cfg.required)
          || is_some (diel_stats_of o)
            && (diel_present_of o
                && diel_ready_to_cut c.diel_cfg (get_default no_diel_stats (diel_stats_of o)))
        ≡ true
      → CoolantReady c
  diel_ok_by c none e h = inr (inl e)
  diel_ok_by c (some x) e h = coolant_cases c x (d.latest_stats x) e refl h

  diel_ok-CoolantReady : (c : EdmController F L D) → (readings c).diel_ok ≡ true → CoolantReady c
  unfolding readings
  diel_ok-CoolantReady c h = diel_ok_by c c.diel refl h

  readings-proto :
      (c : EdmController F L D) → (readings c).proto ≡ true → k.protocol_compatible c.link ≡ true
  unfolding readings
  readings-proto c h = h

  readings-connected :
      (c : EdmController F L D) → (readings c).connected ≡ true → k.is_connected c.link ≡ true
  unfolding readings
  readings-connected c h = h

  check_link-armed :
      (r : Readings) (c : EdmController F L D)
      → is_armed (check_link r c).state ≡ true
      → (is_armed c.state ≡ true) × ((check_link r c).link ≡ c.link)
  unfolding check_link
  check_link-armed r c h = ground arith

  check_diel-armed :
      (r : Readings) (c : EdmController F L D)
      → is_armed (check_diel r c).state ≡ true
      → (is_armed c.state ≡ true) × ((check_diel r c).link ≡ c.link)
  unfolding check_diel
  check_diel-armed r c h = ground arith

  noted :
      (r : Readings) (c : EdmController F L D)
      → ((report_diel r (note_window c)).state ≡ c.state)
        × ((report_diel r (note_window c)).link ≡ c.link)
  unfolding report_diel note_window
  noted r c = ground arith

  -- the stages of `prepare` up to the dielectric check
  abbrev checked : Readings → EdmController F L D → EdmController F L D
  checked r c = check_diel r (check_link r (report_diel r (note_window c)))

  checked-armed :
      (r : Readings) (c : EdmController F L D)
      → is_armed (checked r c).state ≡ true
      → (is_armed c.state ≡ true) × ((checked r c).link ≡ c.link)
  checked-armed r c h =
      let seen = report_diel r (note_window c) in
      let (wet, wet_link) = check_diel-armed r (check_link r seen) h in
      let (linked, linked_link) = check_link-armed r seen wet in
      let (same, same_link) = noted r c in
      (rw (← same) linked, wet_link ∙ (linked_link ∙ same_link))

  module _ (p : IsPowerLink L) where
    run_armed-on :
        (r : Readings) (c : EdmController F L D)
        → p.powered c.link ≡ false
        → p.powered (run_armed r c).link ≡ true
        → (is_armed c.state ≡ true)
          × (r.proto ≡ true)
          × (r.connected ≡ true)
          × (k.last_ack_status c.link ≡ 0)
          × (r.diel_ok ≡ true)
    unfolding run_armed
    run_armed-on r c off on = ground (arith, p.stop_off c.link)

    checked-off :
        (r : Readings) (c : EdmController F L D)
        → p.powered c.link ≡ false
        → p.powered (checked r c).link ≡ false
    checked-off r c off =
        let seen = report_diel r (note_window c) in
        let safe : IsSafe p seen = inr (rw ((noted r c).1) off) in
        let (linked, same) = check_link-Keeps p r seen safe in
        ground (arith, same, (check_diel-Keeps p r (check_link r seen) linked).1, (noted r c).1)

    later-on :
        (r : Readings) (a : EdmController F L D)
        → IsSafe p a
        → p.powered (run_servo r (clear_severity (end_relief a))).0.link ≡ true
        → p.powered a.link ≡ true
    later-on r a safe on =
        let (relieved, s1) = end_relief-Keeps p a safe in
        let (restored, s2) = clear_severity-Keeps p (end_relief a) relieved in
        let (_, s3) = run_servo-Keeps p r (clear_severity (end_relief a)) restored in
        ground (arith, s1, s2, s3)

    drained-off :
        (c : EdmController F L D) (now_ms : ℕ)
        → p.powered c.link ≡ false
        → p.powered (drained c now_ms).link ≡ false
    unfolding drained
    drained-off c now_ms off =
        ground (arith, (drain-Keeps p 8 (record c { now = now_ms }) (inr off)).1)

    -- If a tick turns the cutting power on, then, once the queued events were handled, the
    -- controller was armed, the supply was connected, spoke the protocol version and had 0 as its
    -- last acknowledgement status, and the dielectric interlock was met.
    pub power_on_interlock :
        (c : EdmController F L D) (now_ms : ℕ)
        → p.powered c.link ≡ false
        → p.powered (tick c now_ms).link ≡ true
        → let c1 = drained c now_ms in
          (c1.state ≡ armed)
          × (k.protocol_compatible c1.link ≡ true)
          × (k.is_connected c1.link ≡ true)
          × (k.last_ack_status c1.link ≡ 0)
          × CoolantReady c1
    unfolding tick prepare write_report
    power_on_interlock c now_ms off on =
        let c1 = drained c now_ms in
        let r = readings c1 in
        let quiet : p.powered c1.link ≡ false = drained-off c now_ms off in
        let before = checked-off r c1 quiet in
        let lit =
          later-on r (run_armed r (checked r c1)) (run_armed-IsSafe p r (checked r c1) (inr before))
            on in
        let (ready, proto, connected, ack, wet) = run_armed-on r (checked r c1) before lit in
        let (same, same_link) = checked-armed r c1 ready in
        (
          armed_of c1.state same,
          readings-proto c1 proto,
          readings-connected c1 connected,
          rw (← same_link) ack,
          diel_ok-CoolantReady c1 wet,
        )
