-- ===== src/Text/PinOptions.antt =====
-- FluidNC/src/Pins/PinOptionsParser.cpp and PinOptionsParser.h: the options of a pin, such as
-- "low:pu;value=3", as an iterator. The loop `for (auto opt : parser)` runs on fuel.
pub mod Loop
use fluid_edm.Base.{
  ℕ, zero, suc, Bool, true, false, Option, none, some, List, [], ◌∷◌, ◌==◌, ◌||◌, if◌then◌else◌,
}
use fluid_edm.Text.Strings.{trim, find_delim, rest_of, is_empty, equal_ignore_case}

pub record PinOption : Type 0 where
  pub options : List ℕ
  pub option : List ℕ
  pub key : List ℕ
  pub value : List ℕ

-- a text before the first `:` or `;`, and the text behind it if there is one
unfoldable pub find_separator : List ℕ → List ℕ × Option (List ℕ)
find_separator [] = ([], none)
find_separator (c ∷ cs) =
    let (before, after) = find_separator cs in
    if c == b':' || c == b';' then ([], some cs) else (c ∷ before, after)

-- An option without `=` is its key, and has no value.
unfoldable pub tokenize : List ℕ → PinOption
tokenize [] = record { options = []; option = []; key = []; value = [] }
tokenize (c ∷ cs) =
    let (option, after) = find_separator (c ∷ cs) in
    let (key, value) = find_delim b'=' option in
    record { options = rest_of after; option = option; key = key; value = rest_of value }

unfoldable pub is_option : PinOption → List ℕ → Bool
is_option o option = equal_ignore_case (o.key) option

unfoldable pub begin_options : List ℕ → PinOption
begin_options options = tokenize (trim options)

-- `_key != o._key` against `end()`, whose key is empty
unfoldable pub at_end : PinOption → Bool
at_end o = is_empty (o.key)

-- The options that the loop visits; none is fuel that runs out.
unfoldable pub visited : ℕ → PinOption → Option (List (List ℕ))
visited zero o = none
visited (suc fuel) o = elim (at_end o) [
  | true ↦ some []
  | false ↦ elim (visited fuel (tokenize (o.options))) [
    | none ↦ none
    | some more ↦ some (o.option ∷ more)
  ]
]
