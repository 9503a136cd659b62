-- ===== src/Commands.antt =====
-- EDM/EdmCommands.cpp: the `$EDM/Mode`, `$EDM/Flush` and `$EDM/Pump` commands. A text is its list of
-- bytes; an empty one stands for a null pointer too. Log lines are left out.
pub mod Modes
pub mod Tension
use fluid_edm.Base.{
  ℕ, ◌+◌, ◌%◌, ◌^◌, Bool, true, false, Option, none, some, List, [], ◌∷◌, ltb, leb, ◌==◌, ◌&&◌,
  ◌||◌, if◌then◌else◌,
}
use fluid_edm.Base.Int.{ℤ, pos, negsuc}
use fluid_edm.Base.Float.{Float}
use fluid_edm.Text.Strings.{is_empty, equal_ignore_case}
use fluid_edm.Psu.Link.{IPsuLink}
use fluid_edm.Diel.Messages.{SetDiel, IDielLink}
use fluid_edm.Control.State.{EdmController, request_cut, request_stop}

-- the members of `Error` (FluidNC/src/Error.h) that these commands return
pub data Error : Type 0 where
  ok invalid_statement invalid_value : Error

-- "Idle"
abbrev pub idle_token : List ℕ
idle_token = 73 ∷ 100 ∷ 108 ∷ 101 ∷ []

-- "Rough"
abbrev pub rough_token : List ℕ
rough_token = 82 ∷ 111 ∷ 117 ∷ 103 ∷ 104 ∷ []

-- "Finish"
abbrev pub finish_token : List ℕ
finish_token = 70 ∷ 105 ∷ 110 ∷ 105 ∷ 115 ∷ 104 ∷ []

-- "Ignite"
abbrev pub ignite_token : List ℕ
ignite_token = 73 ∷ 103 ∷ 110 ∷ 105 ∷ 116 ∷ 101 ∷ []

-- "Off"
abbrev pub flush_off : List ℕ
flush_off = 79 ∷ 102 ∷ 102 ∷ []

-- "Low"
abbrev pub low_token : List ℕ
low_token = 76 ∷ 111 ∷ 119 ∷ []

-- "Medium"
abbrev pub medium_token : List ℕ
medium_token = 77 ∷ 101 ∷ 100 ∷ 105 ∷ 117 ∷ 109 ∷ []

-- "Med"
abbrev pub med_token : List ℕ
med_token = 77 ∷ 101 ∷ 100 ∷ []

-- "High"
abbrev pub high_token : List ℕ
high_token = 72 ∷ 105 ∷ 103 ∷ 104 ∷ []

-- "on"
abbrev pub on_token : List ℕ
on_token = 111 ∷ 110 ∷ []

-- "true"
abbrev pub true_token : List ℕ
true_token = 116 ∷ 114 ∷ 117 ∷ 101 ∷ []

-- "1"
abbrev pub digit_one : List ℕ
digit_one = 49 ∷ []

-- "off"
abbrev pub lower_off : List ℕ
lower_off = 111 ∷ 102 ∷ 102 ∷ []

-- "false"
abbrev pub false_token : List ℕ
false_token = 102 ∷ 97 ∷ 108 ∷ 115 ∷ 101 ∷ []

-- "0"
abbrev pub digit_zero : List ℕ
digit_zero = 48 ∷ []

-- the number of a text, if it lies between 0 and the bound; `strtol` gives none when it reads nothing
abbrev pub in_range : ℕ → Option ℤ → Option ℕ
in_range bound none = none
in_range bound (some (negsuc n)) = none
in_range bound (some (pos n)) = if ltb bound n then none else some n

unfoldable pub parse_on_off : List ℕ → Option Bool
parse_on_off value =
    if equal_ignore_case value on_token
      || (equal_ignore_case value true_token || equal_ignore_case value digit_one)
    then some true
    else if equal_ignore_case value lower_off
        || (equal_ignore_case value false_token || equal_ignore_case value digit_zero)
    then some false
    else none

-- over the C library's `strtol` in base 10
module _ (strtol : List ℕ → Option ℤ) where
  unfoldable pub parse_flush_level : List ℕ → Option ℕ
  parse_flush_level value =
      if equal_ignore_case value flush_off
      then some 0
      else if equal_ignore_case value low_token
      then some 1
      else if equal_ignore_case value medium_token
      then some 2
      else if equal_ignore_case value med_token
      then some 2
      else if equal_ignore_case value high_token
      then some 3
      else in_range 3 (strtol value)

  -- the S-word of a name or number
  unfoldable pub s_word_of : List ℕ → Option ℕ
  s_word_of value =
      if equal_ignore_case value rough_token
      then some 100
      else if equal_ignore_case value finish_token
      then some 300
      else if equal_ignore_case value ignite_token
      then some 900
      else in_range 65535 (strtol value)

  module _ {F L D : Type 0} ⦃f : Float F⦄ ⦃k : IPsuLink L⦄ ⦃d : IDielLink D⦄ where
    abbrev pub cut_with : EdmController F L D → Option ℕ → Option (EdmController F L D) × Error
    cut_with c none = (some c, invalid_value)
    cut_with c (some s) = (some (request_cut c s), ok)

    -- the controller is that of the active EDM spindle, if there is one
    unfoldable pub edm_mode :
        Option (EdmController F L D) → List ℕ → Option (EdmController F L D) × Error
    edm_mode none value = (none, invalid_statement)
    edm_mode (some c) value =
        if is_empty value
        then (some c, invalid_value)
        else if equal_ignore_case value idle_token
        then (some (request_stop c), ok)
        else cut_with c (s_word_of value)

  module _ {D : Type 0} ⦃d : IDielLink D⦄ where
    abbrev pub flush_with : D → SetDiel → Option ℕ → Option D × Error
    flush_with l defaults none = (some l, invalid_value)
    flush_with l defaults (some level) = (
      some
          (d.set_diel l
            (record defaults { flush_level = level; pump_on = if ltb 0 level then 1 else 0 })).0,
      ok,
    )

    unfoldable pub edm_flush : Option D → SetDiel → List ℕ → Option D × Error
    edm_flush none defaults value = (none, invalid_statement)
    edm_flush (some l) defaults value =
        if is_empty value
        then (some l, invalid_value)
        else flush_with l defaults (parse_flush_level value)

module _ {D : Type 0} ⦃d : IDielLink D⦄ where
  abbrev pub pump_with : D → SetDiel → Option Bool → Option D × Error
  pump_with l defaults none = (some l, invalid_value)
  pump_with l defaults (some on) =
      (some (d.set_diel l (record defaults { pump_on = if on then 1 else 0 })).0, ok)

  unfoldable pub edm_pump : Option D → SetDiel → List ℕ → Option D × Error
  edm_pump none defaults value = (none, invalid_statement)
  edm_pump (some l) defaults value =
      if is_empty value then (some l, invalid_value) else pump_with l defaults (parse_on_off value)
