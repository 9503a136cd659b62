-- ===== src/Text/Strings.antt =====
-- FluidNC/src/string_util.cpp. A view that is advanced is returned beside the result. The C library is
-- that of the C locale.
pub mod Decimal
use fluid_edm.Base.{
  ℕ, ◌+◌, ◌-◌, ◌*◌, ◌%◌, ◌^◌, Bool, true, false, Option, none, some, List, [], ◌∷◌, ltb, leb, ◌==◌,
  ◌&&◌, ◌||◌, if◌then◌else◌, length,
}

abbrev pub is_empty : List ℕ → Bool
is_empty [] = true
is_empty (x ∷ xs) = false

-- `::tolower`
abbrev pub tolower : ℕ → ℕ
tolower ch = if leb 65 ch && leb ch 90 then ch + 32 else ch

abbrev pub equal_ignore_case : List ℕ → List ℕ → Bool
equal_ignore_case [] [] = true
equal_ignore_case [] (y ∷ ys) = false
equal_ignore_case (x ∷ xs) [] = false
equal_ignore_case (x ∷ xs) (y ∷ ys) = (tolower x == tolower y) && equal_ignore_case xs ys

-- `std::equal` up to the end of the second text, for a first text that is not shorter
unfoldable pub starts_with_ignore_case : List ℕ → List ℕ → Bool
starts_with_ignore_case a [] = true
starts_with_ignore_case [] (y ∷ ys) = false
starts_with_ignore_case (x ∷ xs) (y ∷ ys) =
    (tolower x == tolower y) && starts_with_ignore_case xs ys

-- " \t\n\r\f\v"
abbrev pub is_space : ℕ → Bool
is_space ch = ch == 32 || leb 9 ch && leb ch 13

-- `s.substr(find_first_not_of(...))`
unfoldable pub skip_space : List ℕ → List ℕ
skip_space [] = []
skip_space (x ∷ xs) = let rest = skip_space xs in if is_space x then rest else x ∷ xs

-- A character in front of a text whose trailing white space is gone.
abbrev pub keep_space : ℕ → List ℕ → List ℕ
keep_space x [] = if is_space x then [] else x ∷ []
keep_space x (y ∷ ys) = x ∷ y ∷ ys

-- up to `find_last_not_of(...)`
unfoldable pub drop_space : List ℕ → List ℕ
drop_space [] = []
drop_space (x ∷ xs) = keep_space x (drop_space xs)

unfoldable pub trim : List ℕ → List ℕ
trim s = drop_space (skip_space s)

abbrev pub is_digit : ℕ → Bool
is_digit ch = leb 48 ch && leb ch 57

unfoldable pub from_xdigit : ℕ → Option ℕ
from_xdigit ch =
    let c = tolower ch in
    if is_digit ch
    then some (ch - 48)
    else if leb 97 c && leb c 102
    then some (10 + c - 97)
    else none

-- the loop of `from_hex`
unfoldable pub hex_loop : ℕ → List ℕ → Option ℕ
hex_loop value [] = some value
hex_loop value (c ∷ str) = elim (from_xdigit c) [
  | none ↦ none
  | some x ↦ hex_loop ((value * 16 % 2 ^ 8 + x) % 2 ^ 8) str
]

unfoldable pub from_hex : List ℕ → Option ℕ
from_hex str = if length str == 0 || ltb 2 (length str) then none else hex_loop 0 str

-- the loop of the `uint32_t` version of `from_decimal`
unfoldable pub decimal_loop : ℕ → List ℕ → Option ℕ
decimal_loop value [] = some value
decimal_loop value (x ∷ xs) =
    let rest = decimal_loop ((value * 10 + x - 48) % 2 ^ 32) xs in if is_digit x then rest else none

unfoldable pub from_decimal : List ℕ → Option ℕ
from_decimal [] = none
from_decimal (x ∷ xs) = decimal_loop 0 (x ∷ xs)

-- a text before the first delimiter, and the text behind it if there is one
unfoldable pub find_delim : ℕ → List ℕ → List ℕ × Option (List ℕ)
find_delim delim [] = ([], none)
find_delim delim (x ∷ xs) =
    let (before, after) = find_delim delim xs in
    if x == delim then ([], some xs) else (x ∷ before, after)

abbrev pub rest_of : Option (List ℕ) → List ℕ
rest_of none = []
rest_of (some rest) = rest

-- The new `input` and `next`, and the result.
unfoldable pub split : List ℕ → ℕ → List ℕ × List ℕ × Bool
split input delim =
    let (before, after) = find_delim delim input in
    elim after [ none ↦ (input, [], false) | some next ↦ (before, next, true) ]

-- The prefix and the new `rest`; none is the result false, which changes nothing.
unfoldable pub split_prefix : List ℕ → ℕ → Option (List ℕ × List ℕ)
split_prefix [] delim = none
split_prefix (x ∷ xs) delim =
    let (before, after) = find_delim delim (x ∷ xs) in
    elim after [ none ↦ some (x ∷ xs, []) | some rest ↦ some (before, rest) ]
