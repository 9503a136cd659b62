-- ===== src/Commands/Modes.antt =====
-- What the commands do to the controller and the dielectric link.
use fluid_edm.Base.{
  ℕ, ◌≡◌, ◌≤◌, ◌<◌, ◌⊎◌, inl, inr, refl, false, Option, none, some, List, arith, Bool-cases, ap,
  if◌then◌else◌, ltb,
}
use fluid_edm.Base.Int.{ℤ, pos, negsuc}
use fluid_edm.Base.Float.{Float}
use fluid_edm.Psu.Link.{IPsuLink}
use fluid_edm.Diel.Messages.{SetDiel, IDielLink}
use fluid_edm.Servo.ModeTable.{EdmMode, finish, rough, default_table, mode_for_sword}
use fluid_edm.Control.State.{
  EdmController, is_fault_state, request_cut, request_stop, maybe_send_mode_bounds,
}
use fluid_edm.Text.Strings.{is_empty, equal_ignore_case}
use fluid_edm.Commands.{
  Error, ok, invalid_value, rough_token, finish_token, ignite_token, idle_token, in_range,
  parse_flush_level, s_word_of, cut_with, flush_with, edm_mode, edm_flush,
}

in_range-le : (bound : ℕ) (read : Option ℤ) (n : ℕ) → in_range bound read ≡ some n → n ≤ bound
in_range-le bound none n h = ground (arith, h)
in_range-le bound (some (negsuc m)) n h = ground (arith, h)
in_range-le bound (some (pos m)) n h = ground (arith, h)

module _ (strtol : List ℕ → Option ℤ) where
  flush_level-le : (value : List ℕ) (n : ℕ) → parse_flush_level strtol value ≡ some n → n ≤ 3
  unfolding parse_flush_level
  flush_level-le value n h = ground (arith, h, in_range-le 3 (strtol value) n)

  s_word-le : (value : List ℕ) (n : ℕ) → s_word_of strtol value ≡ some n → n ≤ 65535
  unfolding s_word_of
  s_word-le value n h = ground (arith, h, in_range-le 65535 (strtol value) n)

  module _ {F L D : Type 0} ⦃f : Float F⦄ ⦃k : IPsuLink L⦄ ⦃d : IDielLink D⦄ where
    cut_with_lem :
        (c : EdmController F L D) (o : Option ℕ)
        → ((n : ℕ) → o ≡ some n → n ≤ 65535)
        → ((s : ℕ) × (s ≤ 65535) × (cut_with strtol c o ≡ (some (request_cut c s), ok)))
          ⊎ (cut_with strtol c o ≡ (some c, invalid_value))
    cut_with_lem c none h = inr refl
    cut_with_lem c (some s) h = inl (s, h s refl, refl)

    -- `$EDM/Mode` with an active spindle stops the cut, or requests a cut at an S-word that fits 16
    -- bits, and answers Ok; or it leaves the controller as it is and answers InvalidValue.
    pub edm_mode_lem :
        (c : EdmController F L D) (value : List ℕ)
        → (edm_mode strtol (some c) value ≡ (some (request_stop c), ok))
          ⊎ ((s : ℕ) × (s ≤ 65535)
              × (edm_mode strtol (some c) value ≡ (some (request_cut c s), ok)))
          ⊎ (edm_mode strtol (some c) value ≡ (some c, invalid_value))
    unfolding edm_mode
    edm_mode_lem c value = elim (Bool-cases (is_empty value)) [
      | inl blank ↦ inr (inr (rw blank refl))
      | inr text ↦ elim (Bool-cases (equal_ignore_case value idle_token)) [
        | inl idles ↦ inl (rw (text, idles) refl)
        | inr cuts ↦
            inr (rw (text, cuts) (cut_with_lem c (s_word_of strtol value) (s_word-le value)))
      ]
    ]

    send-mode : (c : EdmController F L D) → (maybe_send_mode_bounds c).mode ≡ c.mode
    unfolding maybe_send_mode_bounds
    send-mode c = ground arith

    request_cut-mode :
        (c : EdmController F L D) (s : ℕ)
        → c.modes ≡ default_table
        → is_fault_state c.state ≡ false
        → 0 < s
        → (request_cut c s).mode ≡ mode_for_sword default_table s
    unfolding request_cut mode_for_sword
    request_cut-mode c s t free some_word = grind (arith, t, free, send-mode)

    -- the mode that a command leaves
    abbrev pub mode_left : Option (EdmController F L D) × Error → Option EdmMode
    mode_left (none, e) = none
    mode_left (some c, e) = some c.mode

    -- With the default table and outside of a fault, the names of `$EDM/Mode` do not select the modes
    -- that they name: Rough and Finish both select finish, and Ignite selects rough.
    pub edm_mode_names :
        (c : EdmController F L D)
        → c.modes ≡ default_table
        → is_fault_state c.state ≡ false
        → (mode_left (edm_mode strtol (some c) rough_token) ≡ some finish)
          × (mode_left (edm_mode strtol (some c) finish_token) ≡ some finish)
          × (mode_left (edm_mode strtol (some c) ignite_token) ≡ some rough)
    unfolding edm_mode s_word_of mode_for_sword
    edm_mode_names c t s = (
      ap some (request_cut-mode c 100 t s (omega arith)),
      ap some (request_cut-mode c 300 t s (omega arith)),
      ap some (request_cut-mode c 900 t s (omega arith)),
    )

  module _ {D : Type 0} ⦃d : IDielLink D⦄ where
    flush_with_lem :
        (l : D) (defaults : SetDiel) (o : Option ℕ)
        → ((n : ℕ) → o ≡ some n → n ≤ 3)
        → ((n : ℕ) × (n ≤ 3)
            × (flush_with strtol l defaults o ≡ (
              some
                  (d.set_diel l
                    (record defaults { flush_level = n; pump_on = if ltb 0 n then 1 else 0 })).0,
              ok,
            )))
          ⊎ (flush_with strtol l defaults o ≡ (some l, invalid_value))
    flush_with_lem l defaults none h = inr refl
    flush_with_lem l defaults (some n) h = inl (n, h n refl, refl)

    -- `$EDM/Flush` with a dielectric link either sends one command at a level of at most 3, with the
    -- pump on exactly when the level is not 0 and all else as in the defaults, and answers Ok; or it
    -- sends nothing and answers InvalidValue.
    pub edm_flush_lem :
        (l : D) (defaults : SetDiel) (value : List ℕ)
        → ((n : ℕ) × (n ≤ 3)
            × (edm_flush strtol (some l) defaults value ≡ (
              some
                  (d.set_diel l
                    (record defaults { flush_level = n; pump_on = if ltb 0 n then 1 else 0 })).0,
              ok,
            )))
          ⊎ (edm_flush strtol (some l) defaults value ≡ (some l, invalid_value))
    unfolding edm_flush
    edm_flush_lem l defaults value = elim (Bool-cases (is_empty value)) [
      | inl blank ↦ inr (rw blank refl)
      | inr text ↦
          rw text
            (flush_with_lem l defaults (parse_flush_level strtol value) (flush_level-le value))
    ]
