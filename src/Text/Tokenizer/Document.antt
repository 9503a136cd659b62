-- ===== src/Text/Tokenizer/Document.antt =====
-- Configurations as documents: the lines that a text consists of, how they are printed, and the tokens
-- that they stand for.
pub mod Pieces
pub mod Read
use fluid_edm.Base.{
  ℕ, suc, ◌+◌, ◌%◌, ◌^◌, ◌≡◌, ◌<◌, Bool, true, false, List, [], ◌∷◌, ◌++◌, ◌==◌, ◌&&◌, ◌||◌, not,
  replicate,
}
use fluid_edm.Base.Int.{pos}
use fluid_edm.Text.Tokenizer.{
  tab_in_indent, invalid_character, missing_colon, missing_delimiter, is_white_space,
  is_identifier_char,
}
use fluid_edm.Text.Tokenizer.Lines.{Tokens, end_of_text, parse_error, token}

abbrev pub spaces : ℕ → List ℕ
spaces n = replicate n b' '

-- what stands behind a colon, after so many spaces: nothing, a text, a text between quotes and what
-- follows it, or a quote that is not closed
pub data Value : Type 0 where
  section : ℕ → Value
  plain : ℕ → ℕ → List ℕ → Value
  between_quotes : ℕ → ℕ → List ℕ → List ℕ → Value
  unclosed : ℕ → ℕ → List ℕ → Value

-- A line, after so many spaces: nothing, a comment, a tab, a character that begins no key, a key without
-- a colon, or a key with spaces, a colon and a value behind it. A key is its first character and the
-- others.
pub data Line : Type 0 where
  empty : ℕ → Line
  comment tabbed : ℕ → List ℕ → Line
  keyless no_colon : ℕ → ℕ → List ℕ → Line
  entry : ℕ → ℕ → List ℕ → ℕ → Value → Line

abbrev pub print_value : Value → List ℕ
print_value (section k) = spaces k
print_value (plain k c cs) = spaces k ++ (c ∷ cs)
print_value (between_quotes k q v more) = spaces k ++ (q ∷ (v ++ (q ∷ more)))
print_value (unclosed k q v) = spaces k ++ (q ∷ v)

abbrev pub print_line : Line → List ℕ
print_line (empty n) = spaces n
print_line (comment n t) = spaces n ++ (b'#' ∷ t)
print_line (tabbed n t) = spaces n ++ (9 ∷ t)
print_line (keyless n c t) = spaces n ++ (c ∷ t)
print_line (no_colon n c t) = spaces n ++ (c ∷ t)
print_line (entry n c cs m v) = spaces n ++ (c ∷ ((cs ++ spaces m) ++ (b':' ∷ print_value v)))

-- the end of a line, with a carriage return or without
abbrev pub line_end : Bool → List ℕ
line_end true = 13 ∷ 10 ∷ []
line_end false = 10 ∷ []

abbrev pub print : List (Line × Bool) → List ℕ
print [] = []
print ((l, cr) ∷ ls) = print_line l ++ (line_end cr ++ print ls)

abbrev pub value_tokens : ℕ → ℕ → List ℕ → Value → Tokens → Tokens
value_tokens m n key (section k) rest = token m (pos n) key [] rest
value_tokens m n key (plain k c cs) rest = token m (pos n) key (c ∷ cs) rest
value_tokens m n key (between_quotes k q v more) rest = token m (pos n) key v rest
value_tokens m n key (unclosed k q v) rest = parse_error m missing_delimiter

abbrev pub line_tokens : ℕ → Line → Tokens → Tokens
line_tokens m (empty n) rest = rest
line_tokens m (comment n t) rest = rest
line_tokens m (tabbed n t) rest = parse_error m tab_in_indent
line_tokens m (keyless n c t) rest = parse_error m invalid_character
line_tokens m (no_colon n c t) rest = parse_error m missing_colon
line_tokens m (entry n c cs k v) rest = value_tokens m n (c ∷ cs) v rest

-- what the document means: its entries with their line numbers, up to the first line that is wrong
unfoldable pub document_tokens : ℕ → List (Line × Bool) → Tokens
document_tokens n [] = end_of_text
document_tokens n ((l, cr) ∷ ls) =
    let m = (n + 1) % 2 ^ 32 in line_tokens m l (document_tokens m ls)

-- no such character in a text
abbrev pub absent : ℕ → List ℕ → Bool
absent d [] = true
absent d (c ∷ cs) = not (c == d) && absent d cs

-- a text that does not end in white space
abbrev pub ends_well : List ℕ → Bool
ends_well [] = true
ends_well (c ∷ []) = not (is_white_space c)
ends_well (c ∷ d ∷ cs) = ends_well (d ∷ cs)

abbrev pub is_quote : ℕ → Bool
is_quote c = c == b'"' || c == 39

abbrev pub IsValue : Value → Type 0
IsValue (section k) = Unit
IsValue (plain k c cs) = (is_white_space c ≡ false) × (is_quote c ≡ false)
IsValue (between_quotes k q v more) = (is_quote q ≡ true) × (absent q v ≡ true)
IsValue (unclosed k q v) = (is_quote q ≡ true) × (absent q v ≡ true)

-- a character that begins neither a comment nor a key
abbrev pub begins_nothing : ℕ → Bool
begins_nothing c =
    not (c == b' ') && (not (c == 9) && (not (c == b'#') && not (is_identifier_char c)))

abbrev pub IsKind : Line → Type 0
IsKind (empty n) = Unit
IsKind (comment n t) = n < 128
IsKind (tabbed n t) = n < 128
IsKind (keyless n c t) = (n < 128) × (begins_nothing c ≡ true)
IsKind (no_colon n c t) = (n < 128) × (is_identifier_char c ≡ true) × (absent b':' (c ∷ t) ≡ true)
IsKind (entry n c cs m v) =
    (n < 128)
    × (is_identifier_char c ≡ true)
    × (absent b':' (c ∷ cs) ≡ true)
    × (ends_well (c ∷ cs) ≡ true)
    × IsValue v

-- A line is of its kind, is indented by fewer than 128 spaces, and has neither line feed nor carriage
-- return in it.
abbrev pub IsLine : Line × Bool → Type 0
IsLine (l, cr) = IsKind l × (absent 10 (print_line l) ≡ true) × (absent 13 (print_line l) ≡ true)
