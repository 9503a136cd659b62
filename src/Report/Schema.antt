-- ===== src/Report/Schema.antt =====
-- The tags of the status objects that the web page reads, and the type of the value under each of them.
use Prim.Native.String.{String}
use package.text.Mathlib.Text
use fluid_edm.Base.{
  ℕ, ◌≡◌, Bool, true, Option, none, some, List, [], ◌∷◌, ltb, ◌==◌, ◌&&◌, not, if◌then◌else◌,
}
use fluid_edm.Base.Float.{Float, nought}
use fluid_edm.Control.Report.{EdmReport}
use fluid_edm.Feed.WireFeed.{WireFeed}
use fluid_edm.Report.{Leaf, text, num_f1, null, Value, leaf, object, Members}

-- the JSON types that occur; `no_json` is the `nan` or `inf` that `%.1f` writes for such a float
pub data LeafKind : Type 0 where
  number string null_literal no_json : LeafKind

pub data Kind : Type 0 where
  plain : LeafKind → Kind
  object_of : List (String × LeafKind) → Kind

module _ {F : Type 0} (is_finite : F → Bool) where
  abbrev pub real_kind : F → LeafKind
  real_kind v = if is_finite v then number else no_json

  abbrev pub kind_of : Leaf F → LeafKind
  kind_of (text s) = string
  kind_of null = null_literal
  kind_of (num_f1 v) = real_kind v
  kind_of _ = number

  abbrev pub leaf_kinds : List (String × Leaf F) → List (String × LeafKind)
  leaf_kinds [] = []
  leaf_kinds ((tag, v) ∷ rest) = (tag, kind_of v) ∷ leaf_kinds rest

  abbrev pub value_kind : Value F → Kind
  value_kind (leaf v) = plain (kind_of v)
  value_kind (object ms) = object_of (leaf_kinds ms)

  -- the type of the first member with a tag
  abbrev pub kind_under : String → Members F → Option Kind
  kind_under tag [] = none
  kind_under tag ((other, v) ∷ rest) =
      if Text.◌==◌ tag other then some (value_kind v) else kind_under tag rest

  -- what a reader finds under the tags of a list
  abbrev pub kinds_under : List String → Members F → List (Option Kind)
  kinds_under [] ms = []
  kinds_under (tag ∷ tags) ms = kind_under tag ms ∷ kinds_under tags ms

-- the numbers, besides the tensions, that `SparkGap.set`, `stats.update` and `render` of the web page
-- (embedded/edm-webui/index.html) read from a report
abbrev pub page_numbers : List String
page_numbers =
    "total_pulses" ∷ "n_normal" ∷ "n_arc" ∷ "n_short" ∷ "n_open" ∷ "wire_break_sev"
    ∷ "tension_collapse" ∷ "v_cmd_um_s" ∷ "energy_uj" ∷ "feed_mm_min" ∷ "connected" ∷ "progress_pct"
    ∷ "x" ∷ "y" ∷ "u" ∷ "v" ∷ "feed_cap_pct" ∷ "dc_link_v" ∷ "peak_i_a" ∷ "temp_gan_c" ∷ []

-- the other tags that it reads there
abbrev pub page_others : List String
page_others =
    "controller_state" ∷ "servo_state" ∷ "fault" ∷ "tension_N" ∷ "tension_set_N" ∷ "running"
    ∷ "paused" ∷ "workbench" ∷ []

-- the numbers that it reads from the object `dielectric`
abbrev pub dielectric_numbers : List String
dielectric_numbers =
    "pump_on" ∷ "flush_level" ∷ "flush_bar" ∷ "flow_lpm" ∷ "temp_c" ∷ "conductivity_us"
    ∷ "level_pct" ∷ "filter_pct" ∷ []

abbrev pub members_of : Option Kind → List (String × LeafKind)
members_of (some (object_of ks)) = ks
members_of _ = []

abbrev pub leaf_under : String → List (String × LeafKind) → Option LeafKind
leaf_under tag [] = none
leaf_under tag ((other, k) ∷ rest) = if Text.◌==◌ tag other then some k else leaf_under tag rest

abbrev pub leaves_under : List String → List (String × LeafKind) → List (Option LeafKind)
leaves_under [] ks = []
leaves_under (tag ∷ tags) ks = leaf_under tag ks ∷ leaves_under tags ks

-- the same element for each of a list
abbrev pub each : {A B : Type 0} → A → List B → List A
each a [] = []
each a (b ∷ bs) = a ∷ each a bs

abbrev pub tags : {F : Type 0} → Members F → List String
tags [] = []
tags ((tag, v) ∷ rest) = tag ∷ tags rest

abbrev absent : String → List String → Bool
absent tag [] = true
absent tag (other ∷ rest) = not (Text.◌==◌ tag other) && absent tag rest

-- no tag occurs twice
abbrev pub distinct : List String → Bool
distinct [] = true
distinct (tag ∷ rest) = absent tag rest && distinct rest

-- the codes that have a name
abbrev pub is_named : ℕ → Bool
is_named n = ltb 0 n && ltb n 10

module _ {F : Type 0} ⦃f : Float F⦄ (is_finite : F → Bool) where
  -- the measured tension and its setpoint, as the telemetry shows them
  abbrev pub shown_tension : Option (WireFeed F) → F
  shown_tension none = nought
  shown_tension (some w) = w.last_n

  abbrev pub shown_setpoint : Option (WireFeed F) → F
  shown_setpoint none = nought
  shown_setpoint (some w) = w.controller.setpoint_n

  -- what the page finds in an object of the telemetry
  abbrev pub PageFinds : EdmReport → Option (WireFeed F) → Members F → Type 0
  PageFinds r w ms =
      (kinds_under is_finite page_numbers ms ≡ each (some (plain number)) page_numbers)
      × (kinds_under is_finite page_others ms
          ≡ some (plain string)
            ∷ some (plain string)
            ∷ some (plain (if is_named r.fault_reason then string else null_literal))
            ∷ some (plain (real_kind is_finite (shown_tension w)))
            ∷ some (plain (real_kind is_finite (shown_setpoint w)))
            ∷ none
            ∷ none
            ∷ none
            ∷ [])
      × (leaves_under dielectric_numbers (members_of (kind_under is_finite "dielectric" ms))
          ≡ each (some number) dielectric_numbers)
      × (distinct (tags ms) ≡ true)
