-- ===== src/Text/Passthrough.antt =====
-- FluidNC/src/ProcessSettings.cpp: how `uartPassthrough` reads its options, a list with commas such as
-- "uart2,10s". The loop runs on fuel.
pub mod Fields
use fluid_edm.Base.{
  ℕ, zero, suc, ◌*◌, ◌%◌, ◌^◌, Bool, true, false, Option, none, some, List, [], ◌∷◌, ◌==◌,
  if◌then◌else◌,
}
use fluid_edm.Text.Strings.{tolower, equal_ignore_case, from_decimal, split_prefix}

pub record PassOptions : Type 0 where
  pub timeout : ℕ
  pub uart_name : List ℕ

-- "auto"
abbrev pub auto_name : List ℕ
auto_name = b'a' ∷ b'u' ∷ b't' ∷ b'o' ∷ []

abbrev pub default_options : PassOptions
default_options = record { timeout = 2000; uart_name = auto_name }

-- `!first.empty() && ::tolower(first.back()) == 's'`
unfoldable pub ends_in_s : List ℕ → Bool
ends_in_s [] = false
ends_in_s (c ∷ []) = tolower c == b's'
ends_in_s (c ∷ d ∷ first) = ends_in_s (d ∷ first)

-- `first.remove_suffix(1)`
unfoldable pub remove_last : List ℕ → List ℕ
remove_last [] = []
remove_last (c ∷ []) = []
remove_last (c ∷ d ∷ first) = c ∷ remove_last (d ∷ first)

-- One turn of the loop; none is the return of `Error::InvalidValue`.
unfoldable pub read_option : PassOptions → List ℕ → Option PassOptions
read_option options first =
    if equal_ignore_case first auto_name
    then some (record options { uart_name = auto_name })
    else if ends_in_s first
    then elim (from_decimal (remove_last first)) [
      | none ↦ none
      | some number ↦ some (record options { timeout = number * 1000 % 2 ^ 32 })
    ]
    else some (record options { uart_name = first })

pub data Passed : Type 0 where
  out_of_fuel : Passed
  invalid : Passed
  passed : PassOptions → Passed

-- `while (string_util::split_prefix(rest, first, ','))`
unfoldable pub read_options : ℕ → PassOptions → List ℕ → Passed
read_options zero options rest = out_of_fuel
read_options (suc fuel) options rest = elim (split_prefix rest b',') [
  | none ↦ passed options
  | some (first, rest) ↦ elim (read_option options first) [
    | none ↦ invalid
    | some options ↦ read_options fuel options rest
  ]
]
