-- ===== src/Json.antt =====
-- JSONEncoder.cpp: the encoder of JSON texts. `lines` are the lines that it has sent, to a channel or
-- to its callback; with a tag, a channel wraps each of them in [MSG:JSON:...].
pub mod Quoted
pub mod Lines
pub mod Adds
pub mod Object
use fluid_edm.Base.{
  ℕ, ◌+◌, ◌-◌, ◌*◌, ◌%◌, ◌^◌, Bool, true, false, List, [], ◌∷◌, ◌++◌, leb, ◌==◌, ◌&&◌, not, length,
  replicate, if◌then◌else◌,
}
use fluid_edm.Text.Strings.{is_empty}

-- `count` is the memory from the start of the array on: its 16 entries, and what lies behind them.
pub record Encoder : Type 0 where
  pub has_channel : Bool
  pub has_tag : Bool
  pub level : ℕ
  pub count : ℕ → ℕ
  pub linebuf : List ℕ
  pub lines : List (List ℕ)
  pub category : List ℕ

abbrev pub max_json_level : ℕ
max_json_level = 16

abbrev pub put_count : (ℕ → ℕ) → ℕ → ℕ → ℕ → ℕ
put_count count l n k = if k == l then n else count k

-- The constructors set the first count only; `garbage` is what the others hold.
unfoldable pub new_encoder : (ℕ → ℕ) → Bool → Bool → Encoder
new_encoder garbage channel tag = record {
  has_channel = channel;
  has_tag = tag;
  level = 0;
  count = put_count garbage 0 0;
  linebuf = [];
  lines = [];
  category = b'n' ∷ b'v' ∷ b's' ∷ [];
}

unfoldable pub flush : Encoder → Encoder
flush j =
    if is_empty j.linebuf then j else record j { linebuf = []; lines = j.lines ++ (j.linebuf ∷ []) }

unfoldable pub add : Encoder → ℕ → Encoder
add j c =
    let more = record j { linebuf = j.linebuf ++ (c ∷ []) } in
    if j.has_channel && leb 100 (length more.linebuf) then flush more else more

unfoldable pub add_all : Encoder → List ℕ → Encoder
add_all j [] = j
add_all j (c ∷ cs) = add_all (add j c) cs

-- the characters but line feeds
abbrev pub without_newlines : List ℕ → List ℕ
without_newlines [] = []
without_newlines (c ∷ cs) = let rest = without_newlines cs in if c == 10 then rest else c ∷ rest

unfoldable pub verbatim : Encoder → List ℕ → Encoder
verbatim j s = add_all j (without_newlines s)

-- what `quoted` writes for one character
abbrev pub escape : ℕ → List ℕ
escape c =
    if c == 8
    then b'\\' ∷ b'b' ∷ []
    else if c == 10
    then b'\\' ∷ b'n' ∷ []
    else if c == 12
    then b'\\' ∷ b'f' ∷ []
    else if c == 13
    then b'\\' ∷ b'r' ∷ []
    else if c == 9
    then b'\\' ∷ b't' ∷ []
    else if c == b'"'
    then b'\\' ∷ b'"' ∷ []
    else if c == b'\\'
    then b'\\' ∷ b'\\' ∷ []
    else c ∷ []

unfoldable pub escape_all : List ℕ → List ℕ
escape_all [] = []
escape_all (c ∷ cs) = escape c ++ escape_all cs

unfoldable pub quoted : Encoder → List ℕ → Encoder
quoted j s = add (add_all (add j b'"') (escape_all s)) b'"'

unfoldable pub inc_level : Encoder → Encoder
inc_level j =
    let next = if j.level + 1 == max_json_level then j.level else j.level + 1 in
    record j { level = next; count = put_count j.count next 0 }

-- an unsigned number of 32 bits, so that it wraps below zero
unfoldable pub dec_level : Encoder → Encoder
dec_level j = record j { level = (j.level + 2 ^ 32 - 1) % 2 ^ 32 }

unfoldable pub indent : Encoder → Encoder
indent j = add_all j (replicate (2 * j.level) b' ')

-- `log_stream` sends the line even if it is empty
unfoldable pub line : Encoder → Encoder
line j =
    if j.has_channel
    then if j.has_tag
      then j
      else indent (record j { linebuf = []; lines = j.lines ++ (j.linebuf ∷ []) })
    else indent (add j 10)

abbrev pub counted : Encoder → Encoder
counted j = record j { count = put_count j.count j.level ((j.count j.level + 1) % 2 ^ 32) }

unfoldable pub comma_line : Encoder → Encoder
comma_line j = counted (if j.count j.level == 0 then j else line (add j b','))

unfoldable pub comma : Encoder → Encoder
comma j = counted (if j.count j.level == 0 then j else add j b',')

unfoldable pub string : Encoder → List ℕ → Encoder
string j s = quoted (comma_line j) s

unfoldable pub begin_member : Encoder → List ℕ → Encoder
begin_member j tag = add (quoted (comma_line j) tag) b':'

unfoldable pub begin_array : Encoder → List ℕ → Encoder
begin_array j tag = line (inc_level (add (begin_member j tag) b'['))

unfoldable pub end_array : Encoder → Encoder
end_array j = add (line (dec_level j)) b']'

unfoldable pub begin_member_object : Encoder → List ℕ → Encoder
begin_member_object j tag = inc_level (add (add (quoted (comma_line j) tag) b':') b'{')

unfoldable pub begin_object : Encoder → Encoder
begin_object j = inc_level (add (comma_line j) b'{')

unfoldable pub end_object : Encoder → Encoder
end_object j = add (line (dec_level j)) b'}'

unfoldable pub member : Encoder → List ℕ → List ℕ → Encoder
member j tag value = quoted (begin_member j tag) value

-- a bare value under a tag, as the status objects write numbers
abbrev pub bare_member : Encoder → List ℕ → List ℕ → Encoder
bare_member j tag value = verbatim (begin_member j tag) value

-- `begin` and `end`, less the channel's own start and end of a JSON text
unfoldable pub begin_json : Encoder → Encoder
begin_json j = begin_object j

unfoldable pub end_json : Encoder → Encoder
end_json j = flush (line (end_object j))

unfoldable pub id_value_object : Encoder → List ℕ → List ℕ → Encoder
id_value_object j id value = end_object (
    member (member (begin_object j) (b'i' ∷ b'd' ∷ []) id) (b'v' ∷ b'a' ∷ b'l' ∷ b'u' ∷ b'e' ∷ [])
      value)

abbrev pub set_category : Encoder → List ℕ → Encoder
set_category j cat = record j { category = cat }

-- the head of a configuration item, which its caller closes
unfoldable pub begin_webui : Encoder → List ℕ → List ℕ → List ℕ → Encoder
begin_webui j name type val =
    let opened = begin_object j in
    let f = member opened (b'F' ∷ []) opened.category in
    let p = member f (b'P' ∷ []) name in
    let h = member p (b'H' ∷ []) name in
    let t = member h (b'T' ∷ []) type in member t (b'V' ∷ []) val

-- the same with the texts of the largest and the smallest value
unfoldable pub begin_webui_range : Encoder → List ℕ → List ℕ → List ℕ → List ℕ → List ℕ → Encoder
begin_webui_range j name type val smallest largest =
    member (member (begin_webui j name type val) (b'S' ∷ []) largest) (b'M' ∷ []) smallest
