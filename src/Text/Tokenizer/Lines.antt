-- ===== src/Text/Tokenizer/Lines.antt =====
-- The tokens of a whole text: what calling `Tokenize` until the end gives, line by line.
use fluid_edm.Base.{
  ℕ, zero, suc, ◌≡◌, ◌≤◌, ◌<◌, refl, ap, true, false, List, [], ◌∷◌, ◌==◌, arith, length, glue,
  if◌then◌else◌, Bool-cases, inl, inr,
}
use fluid_edm.Base.Int.{ℤ, pos}
use fluid_edm.Text.Strings.{find_delim, rest_of}
use fluid_edm.Text.Tokenizer.{
  matching, Tokenizer, ParseError, tab_in_indent, LineContent, blank, tab, too_deep, content,
  read_line, Outcome, returned, failed, unknown, stuck, next_linenum, at_line, next_line, Part,
  part, wrong, parse_key, parse_value, with_value, with_key, parse_line, after_line, is_held,
  tokenize, new_tokenizer,
}

-- the tokens of a text with their line numbers, and how it ends
pub data Tokens : Type 0 where
  end_of_text out_of_fuel : Tokens
  parse_error : ℕ → ParseError → Tokens
  unknown_indent : ℕ → Tokens
  token : ℕ → ℤ → List ℕ → List ℕ → Tokens → Tokens

abbrev pub then_tokens : (Tokenizer → Tokens) → Outcome → Tokens
then_tokens go_on (returned true t) =
    token t.linenum t.token.indent t.token.key t.token.value (go_on t)
then_tokens go_on (returned false t) = end_of_text
then_tokens go_on (failed n e) = parse_error n e
then_tokens go_on (unknown n) = unknown_indent n
then_tokens go_on stuck = out_of_fuel

-- `Tokenize` until the end of the text
unfoldable pub run_tokens : ℕ → Tokenizer → Tokens
run_tokens zero t = out_of_fuel
run_tokens (suc fuel) t = then_tokens (λ u. run_tokens fuel u) (tokenize (suc fuel) t)

-- the lines of a text; the last one need not end
unfoldable pub lines_of : List ℕ → List (List ℕ)
lines_of [] = []
lines_of (c ∷ cs) = let rest = lines_of cs in if c == 10 then [] ∷ rest else glue c rest

abbrev pub value_token : ℕ → ℤ → List ℕ → Part → Tokens → Tokens
value_token n i key (wrong e) rest = parse_error n e
value_token n i key (part value left) rest = token n i key value rest

abbrev pub key_token : ℕ → ℤ → Part → Tokens → Tokens
key_token n i (wrong e) rest = parse_error n e
key_token n i (part key behind) rest = value_token n i key (parse_value behind) rest

-- the token of one line, before those of the others
abbrev pub line_token : ℕ → LineContent → Tokens → Tokens
line_token n blank rest = rest
line_token n tab rest = parse_error n tab_in_indent
line_token n too_deep rest = unknown_indent n
line_token n (content i line) rest = key_token n (pos i) (parse_key line) rest

-- The lines in order, numbered on from `n`: one without content gives nothing, another its token, and
-- the first that is wrong ends the text.
unfoldable pub tokens_of : ℕ → List (List ℕ) → Tokens
tokens_of n [] = end_of_text
tokens_of n (line ∷ lines) =
    let m = next_linenum n in line_token m (read_line line) (tokens_of m lines)

lines-find :
    (c : ℕ) (cs : List ℕ)
    → lines_of (c ∷ cs) ≡ (find_delim 10 (c ∷ cs)).0 ∷ lines_of (rest_of (find_delim 10 (c ∷ cs)).1)
unfolding lines_of find_delim
lines-find c [] = elim (Bool-cases (c == 10)) [ inl e ↦ rw e refl | inr e ↦ rw e refl ]
lines-find c (d ∷ cs) = elim (Bool-cases (c == 10)) [
  | inl e ↦ rw e refl
  | inr e ↦ rw e (ap (glue c) (lines-find d cs))
]

find-shorter : (d c : ℕ) (cs : List ℕ) → length (rest_of (find_delim d (c ∷ cs)).1) ≤ length cs
unfolding find_delim
find-shorter d c [] = elim (Bool-cases (c == d)) [
  | inl e ↦ rw e (omega arith)
  | inr e ↦ rw e (omega arith)
]
find-shorter d c (b ∷ cs) = elim (Bool-cases (c == d)) [
  | inl e ↦ rw e (omega arith)
  | inr e ↦ rw e (omega (arith, find-shorter d b cs))
]

module _ (go_on : Tokenizer → Tokens) (k : ℕ)
    (later : (u : Tokenizer)
      → length u.remainder < k
      → is_held u.token.state ≡ false
      → go_on u ≡ tokens_of u.linenum (lines_of u.remainder)) where
  line_parsed :
      (t : Tokenizer)
      → length t.remainder < k
      → is_held t.token.state ≡ false
      → then_tokens go_on (parse_line t)
        ≡ key_token t.linenum t.token.indent
            (parse_key t.line)
            (tokens_of t.linenum (lines_of t.remainder))
  unfolding parse_line
  line_parsed t short free = parsed (parse_key t.line)
    where
      others : Tokens
      others = tokens_of t.linenum (lines_of t.remainder)

      valued :
          (key : List ℕ) (p : Part)
          → then_tokens go_on (with_value t key p)
            ≡ value_token t.linenum t.token.indent key p others
      valued key (wrong x) = refl
      valued key (part value left) =
          let u = record t { line = left; token = record (t.token) { key = key; value = value } } in
          ap (token t.linenum t.token.indent key value) (later u short free)

      parsed :
          (p : Part)
          → then_tokens go_on (with_key t p) ≡ key_token t.linenum t.token.indent p others
      parsed (wrong x) = refl
      parsed (part key rest) = valued key (parse_value rest)

  line_at :
      (t : Tokenizer) (rest : Outcome) (l : LineContent)
      → length t.remainder < k
      → is_held t.token.state ≡ false
      → then_tokens go_on (after_line rest) ≡ tokens_of t.linenum (lines_of t.remainder)
      → then_tokens go_on (after_line (at_line l t rest))
        ≡ line_token t.linenum l (tokens_of t.linenum (lines_of t.remainder))
  unfolding at_line after_line
  line_at t rest blank short free below = below
  line_at t rest tab short free below = refl
  line_at t rest too_deep short free below = refl
  line_at t rest (content n line) short free below =
      line_parsed (record t { line = line; token = record (t.token) { indent = pos n } }) short free

  line_found :
      (fuel : ℕ) (r : List ℕ) (t : Tokenizer)
      → length r < fuel
      → length r ≤ k
      → is_held t.token.state ≡ false
      → then_tokens go_on (after_line (next_line fuel (record t { remainder = r })))
        ≡ tokens_of t.linenum (lines_of r)
  unfolding next_line after_line tokens_of lines_of
  line_found zero r t short small free = absurd (omega (arith, short))
  line_found (suc fuel) [] t short small free = refl
  line_found (suc fuel) (c ∷ cs) t short small free =
      let found = find_delim 10 (c ∷ cs) in
      let shorter = find-shorter 10 c cs in
      let t' = record t { linenum = next_linenum t.linenum; remainder = rest_of found.1 } in
      rw (lines-find c cs) (
        line_at t' (next_line fuel t') (read_line found.0) (omega (arith, shorter, small)) free (
          line_found fuel (rest_of found.1) t' (omega (arith, shorter, short))
            (omega (arith, shorter, small)) free))

run_tokens-tokens_of :
    (fuel : ℕ) (t : Tokenizer)
    → length t.remainder < fuel
    → is_held t.token.state ≡ false
    → run_tokens fuel t ≡ tokens_of t.linenum (lines_of t.remainder)
unfolding run_tokens tokenize
run_tokens-tokens_of zero t short free = absurd (omega (arith, short))
run_tokens-tokens_of (suc fuel) t short free =
    let t' = record t { token = record (t.token) { state = matching } } in
    rw (run_tokens, tokenize, free)
      (line_found (λ u. run_tokens fuel u) fuel (λ u. run_tokens-tokens_of fuel u) (suc fuel)
        t.remainder t' short (omega (arith, short)) refl)

-- With more fuel than the text has characters, calling `Tokenize` until the end gives the tokens of the
-- text's lines in order, each with its line number, or those before the first wrong line and its error.
pub run_tokens-new_tokenizer :
    (fuel : ℕ) (text : List ℕ)
    → length text < fuel
    → run_tokens fuel (new_tokenizer text) ≡ tokens_of 0 (lines_of text)
run_tokens-new_tokenizer fuel text short = run_tokens-tokens_of fuel (new_tokenizer text) short refl
