-- ===== src/Text/Tokenizer.antt =====
-- Configuration/Tokenizer.h and Tokenizer.cpp: the tokens of a YAML configuration. A parse error, which
-- the source throws, is an outcome with its line number. `_indent` is an int_fast8_t, which has 8 bits on
-- some platforms: the model does not go on behind a content with 128 spaces in front of it or more.
pub mod Lines
pub mod Document
use fluid_edm.Base.{
  ℕ, zero, suc, ◌+◌, ◌%◌, ◌^◌, Bool, true, false, Option, none, some, List, [], ◌∷◌, leb, ◌==◌,
  ◌&&◌, ◌||◌, not, if◌then◌else◌,
}
use fluid_edm.Base.Int.{ℤ, pos, negsuc}
use fluid_edm.Text.Strings.{find_delim, rest_of, is_empty}

pub data TokenState : Type 0 where
  bof matching matched held eof : TokenState

pub record TokenData : Type 0 where
  pub key : List ℕ
  pub value : List ℕ
  pub indent : ℤ
  pub state : TokenState

pub record Tokenizer : Type 0 where
  pub remainder : List ℕ
  pub linenum : ℕ
  pub line : List ℕ
  pub token : TokenData

-- the messages of `parseError`
pub data ParseError : Type 0 where
  tab_in_indent invalid_character missing_colon missing_delimiter : ParseError

abbrev pub new_tokenizer : List ℕ → Tokenizer
new_tokenizer yaml_string = record {
  remainder = yaml_string;
  linenum = 0;
  line = [];
  token = record { key = []; value = []; indent = negsuc 0; state = bof };
}

abbrev pub is_white_space : ℕ → Bool
is_white_space c = c == b' ' || c == 9 || c == 12 || c == 13

abbrev pub is_identifier_char : ℕ → Bool
is_identifier_char c =
    (leb b'a' c && leb c b'z')
    || (leb b'A' c && leb c b'Z')
    || (leb b'0' c && leb c b'9')
    || c == b'_'

-- without a carriage return at the end
unfoldable pub strip_cr : List ℕ → List ℕ
strip_cr [] = []
strip_cr (c ∷ cs) = let rest = strip_cr cs in if c == 13 && is_empty cs then [] else c ∷ rest

-- what a line comes to, in one turn of the loop of `nextLine`: no content, a tab behind its spaces, a
-- content whose indentation need not fit `_indent`, or a content with its indentation
pub data LineContent : Type 0 where
  blank tab too_deep : LineContent
  content : ℕ → List ℕ → LineContent

unfoldable pub read_indent : ℕ → List ℕ → LineContent
read_indent n [] = blank
read_indent n (c ∷ cs) =
    let deeper = read_indent (suc n) cs in
    if c == b' '
    then deeper
    else if leb 128 n
    then too_deep
    else if c == 9
    then tab
    else if c == b'#'
    then blank
    else content n (c ∷ cs)

unfoldable pub read_line : List ℕ → LineContent
read_line line = read_indent 0 (strip_cr line)

-- `nextLine` returns whether there is a line, or throws; `stuck` is for a lack of fuel, and `unknown` for
-- an indentation that need not fit
pub data Outcome : Type 0 where
  unknown : ℕ → Outcome
  returned : Bool → Tokenizer → Outcome
  failed : ℕ → ParseError → Outcome
  stuck : Outcome

abbrev pub next_linenum : ℕ → ℕ
next_linenum n = (n + 1) % 2 ^ 32

unfoldable pub at_line : LineContent → Tokenizer → Outcome → Outcome
at_line blank t go_on = go_on
at_line tab t go_on = failed t.linenum tab_in_indent
at_line too_deep t go_on = unknown t.linenum
at_line (content n line) t go_on =
    returned true (record t { line = line; token = record (t.token) { indent = pos n } })

unfoldable pub next_line : ℕ → Tokenizer → Outcome
next_line zero t = stuck
next_line (suc fuel) t =
    let n = next_linenum t.linenum in
    let (line, after) = find_delim 10 t.remainder in
    let t' = record t { linenum = n; remainder = rest_of after } in
    let rest = next_line fuel t' in
    if is_empty t.remainder
    then returned false (record t { linenum = n; line = [] })
    else at_line (read_line line) t' rest

-- without white space at the end
unfoldable pub strip_end : List ℕ → List ℕ
strip_end [] = []
strip_end (c ∷ cs) =
    let rest = strip_end cs in if is_white_space c && is_empty rest then [] else c ∷ rest

unfoldable pub skip_white_space : List ℕ → List ℕ
skip_white_space [] = []
skip_white_space (c ∷ cs) =
    let rest = skip_white_space cs in if is_white_space c then rest else c ∷ cs

-- two parts of a line, or an error
pub data Part : Type 0 where
  part : List ℕ → List ℕ → Part
  wrong : ParseError → Part

-- the key of a line and what follows its colon
unfoldable pub parse_key : List ℕ → Part
parse_key [] = wrong invalid_character
parse_key (c ∷ cs) =
    let (before, after) = find_delim b':' (c ∷ cs) in
    if is_identifier_char c
    then elim after [ none ↦ wrong missing_colon | some rest ↦ part (strip_end before) rest ]
    else wrong invalid_character

-- a value behind its quote, and what follows the closing one
unfoldable pub quoted_value : ℕ → List ℕ → Part
quoted_value delimiter cs =
    let (value, after) = find_delim delimiter cs in
    elim after [ none ↦ wrong missing_delimiter | some rest ↦ part value rest ]

unfoldable pub value_at : List ℕ → Part
value_at [] = part [] []
value_at (c ∷ cs) = if c == b'"' || c == 39 then quoted_value c cs else part (c ∷ cs) (c ∷ cs)

-- the value, and what is left of the line
unfoldable pub parse_value : List ℕ → Part
parse_value line = value_at (skip_white_space line)

abbrev pub with_value : Tokenizer → List ℕ → Part → Outcome
with_value t key (wrong e) = failed t.linenum e
with_value t key (part value left) =
    returned true (record t { line = left; token = record (t.token) { key = key; value = value } })

abbrev pub with_key : Tokenizer → Part → Outcome
with_key t (wrong e) = failed t.linenum e
with_key t (part key rest) = with_value t key (parse_value rest)

-- `parseKey` and `parseValue`
unfoldable pub parse_line : Tokenizer → Outcome
parse_line t = with_key t (parse_key t.line)

abbrev pub at_end : Tokenizer → Tokenizer
at_end t = record t { token = record (t.token) { state = eof; indent = negsuc 0; key = [] } }

unfoldable pub after_line : Outcome → Outcome
after_line (returned true t) = parse_line t
after_line (returned false t) = returned false (at_end t)
after_line (failed n e) = failed n e
after_line (unknown n) = unknown n
after_line stuck = stuck

abbrev pub is_held : TokenState → Bool
is_held held = true
is_held _ = false

-- `Tokenize`, with the value of `nextLine`
unfoldable pub tokenize : ℕ → Tokenizer → Outcome
tokenize fuel t =
    let matching_token = record t { token = record (t.token) { state = matching } } in
    if is_held t.token.state
    then returned true matching_token
    else after_line (next_line fuel matching_token)
