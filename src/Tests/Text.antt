-- ===== src/Tests/Text.antt =====
-- The text helpers on concrete texts.
use fluid_edm.Base.{ℕ, ◌≡◌, ◌↔◌, refl, Bool, true, false, some, List, [], ◌∷◌, arith}
use fluid_edm.Text.Regexpr.{regex_match, match_star, match_here}
use fluid_edm.Text.Regexpr.Meaning.{Contains, regex_match_iff}
use fluid_edm.Base.Int.{pos}
use fluid_edm.Text.Strings.{find_delim}
use fluid_edm.Text.Tokenizer.{
  missing_delimiter, read_line, read_indent, strip_cr, parse_key, parse_value, skip_white_space,
  value_at, strip_end,
}
use fluid_edm.Text.Tokenizer.Lines.{tokens_of, lines_of, token, end_of_text, parse_error}
use fluid_edm.Text.Tokenizer.Document.{
  Line, comment, entry, plain, section, unclosed, document_tokens,
}
use fluid_edm.Text.Utf8.{Utf8, decode, encode}
use fluid_edm.Text.Utf8.RoundTrip.{at_rest, decode-encode}

-- "4294967299", which is 2 ^ 32 + 3
abbrev too_large : List ℕ
too_large = b'4' ∷ b'2' ∷ b'9' ∷ b'4' ∷ b'9' ∷ b'6' ∷ b'7' ∷ b'2' ∷ b'9' ∷ b'9' ∷ []

-- "ab*d$" and "xabcd"
abbrev pattern_text : List ℕ
pattern_text = b'a' ∷ b'b' ∷ b'*' ∷ b'd' ∷ b'$' ∷ []

abbrev matched_text : List ℕ
matched_text = b'x' ∷ b'a' ∷ b'b' ∷ b'c' ∷ b'd' ∷ []

regex_match_iff_example :
    (regex_match pattern_text matched_text true ≡ true) ↔ Contains true pattern_text matched_text
regex_match_iff_example = regex_match_iff true pattern_text matched_text

pattern_matches : regex_match pattern_text matched_text true ≡ true
unfolding regex_match match_star match_here
pattern_matches = refl

-- "u1,5s"
abbrev option_text : List ℕ
option_text = b'u' ∷ b'1' ∷ b',' ∷ b'5' ∷ b's' ∷ []

-- "a%!"
abbrev setting_text : List ℕ
setting_text = b'a' ∷ b'%' ∷ b'!' ∷ []

decode-encode_example :
    ((decode (at_rest 7) (encode 0x20AC)).0 ≡ some 0x20AC)
    × ((decode (at_rest 7) (encode 0x20AC)).1.state ≡ 0)
decode-encode_example = decode-encode 7 0x20AC (omega arith)

euro_bytes : encode 0x20AC ≡ 0xE2 ∷ 0x82 ∷ 0xAC ∷ []
unfolding encode
euro_bytes = refl

-- in the midst of a sequence of three bytes
abbrev half_way : Utf8
half_way = record { num = 0x82; state = 1 }

-- "low::pu"
abbrev pin_text : List ℕ
pin_text = b'l' ∷ b'o' ∷ b'w' ∷ b':' ∷ b':' ∷ b'p' ∷ b'u' ∷ []

-- "a: 1", a comment, and "  b:"
abbrev yaml_text : List ℕ
yaml_text = b'a' ∷ b':' ∷ b' ' ∷ b'1' ∷ 10 ∷ b' ' ∷ b'#' ∷ 10 ∷ b' ' ∷ b' ' ∷ b'b' ∷ b':' ∷ []

-- "a: 1" with a carriage return, a comment, "  b :", and "c: 'x" without the second quote
abbrev yaml_document : List (Line × Bool)
yaml_document =
    (entry 0 b'a' [] 0 (plain 1 b'1' []), true)
    ∷ (comment 1 (b'!' ∷ []), false)
    ∷ (entry 2 b'b' [] 1 (section 0), false)
    ∷ (entry 0 b'c' [] 0 (unclosed 1 39 (b'x' ∷ [])), false)
    ∷ []

document_meaning :
    document_tokens 0 yaml_document
    ≡ token 1
        (pos 0)
        (b'a' ∷ [])
        (b'1' ∷ [])
        (token 3 (pos 2) (b'b' ∷ []) [] (parse_error 4 missing_delimiter))
unfolding document_tokens
document_meaning = refl

yaml_tokens :
    tokens_of 0 (lines_of yaml_text)
    ≡ token 1 (pos 0) (b'a' ∷ []) (b'1' ∷ []) (token 3 (pos 2) (b'b' ∷ []) [] end_of_text)
unfolding tokens_of lines_of read_line read_indent strip_cr parse_key parse_value skip_white_space
    value_at strip_end find_delim
yaml_tokens = refl
