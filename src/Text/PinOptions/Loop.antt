-- ===== src/Text/PinOptions/Loop.antt =====
-- Which options the loop over a pin's options visits.
use fluid_edm.Base.{
  ℕ, glue, zero, suc, ◌<◌, ◌≡◌, refl, ap, ◌∙◌, Bool, true, false, some, List, [], ◌∷◌, arith,
  length, ◌==◌, ◌||◌, if◌then◌else◌, Bool-cases, inl, inr,
}
use fluid_edm.Text.Strings.{find_delim, is_empty, rest_of, trim}
use fluid_edm.Text.PinOptions.{PinOption, find_separator, tokenize, at_end, begin_options, visited}

-- The parts of a text, each ended by `:`, `;` or the end of the text.
unfoldable pub parts : List ℕ → List (List ℕ)
parts [] = []
parts (c ∷ cs) = if c == b':' || c == b';' then [] ∷ parts cs else glue c (parts cs)

-- nothing before the first `=`
abbrev keyless : List ℕ → Bool
keyless [] = true
keyless (c ∷ cs) = c == b'='

-- the parts before the first that has no key
unfoldable pub keyed : List (List ℕ) → List (List ℕ)
keyed [] = []
keyed (p ∷ ps) = let rest = keyed ps in if keyless p then [] else p ∷ rest

find_separator-parts :
    (c : ℕ) (cs : List ℕ)
    → let (option, after) = find_separator (c ∷ cs) in
      parts (c ∷ cs) ≡ option ∷ parts (rest_of after)
unfolding find_separator parts
find_separator-parts c [] = elim (Bool-cases (c == b':' || c == b';')) [
  | inl mark ↦ rw mark refl
  | inr other ↦ rw other refl
]
find_separator-parts c (d ∷ cs) = elim (Bool-cases (c == b':' || c == b';')) [
  | inl mark ↦ rw mark refl
  | inr other ↦ rw other (ap (glue c) (find_separator-parts d cs))
]

find_separator-length :
    (c : ℕ) (cs : List ℕ)
    → let (option, after) = find_separator (c ∷ cs) in length (rest_of after) < length (c ∷ cs)
unfolding find_separator
find_separator-length c [] = elim (Bool-cases (c == b':' || c == b';')) [
  | inl mark ↦ rw mark (omega arith)
  | inr other ↦ rw other (omega arith)
]
find_separator-length c (d ∷ cs) = elim (Bool-cases (c == b':' || c == b';')) [
  | inl mark ↦ rw mark (omega arith)
  | inr other ↦ rw other (omega (arith, find_separator-length d cs))
]

find_delim-keyless : (option : List ℕ) → is_empty (find_delim b'=' option).0 ≡ keyless option
unfolding find_delim
find_delim-keyless [] = refl
find_delim-keyless (c ∷ cs) = ground arith

at_end-tokenize :
    (c : ℕ) (cs : List ℕ) → at_end (tokenize (c ∷ cs)) ≡ keyless (find_separator (c ∷ cs)).0
unfolding at_end tokenize
at_end-tokenize c cs = find_delim-keyless (find_separator (c ∷ cs)).0

visited_end : (fuel : ℕ) (o : PinOption) → at_end o ≡ true → visited (suc fuel) o ≡ some []
unfolding visited
visited_end fuel o h = rw (visited, h) refl

visited_more :
    (fuel : ℕ) (o : PinOption) (more : List (List ℕ))
    → at_end o ≡ false
    → visited fuel (tokenize (o.options)) ≡ some more
    → visited (suc fuel) o ≡ some (o.option ∷ more)
unfolding visited
visited_more fuel o more h rest = rw (visited, h, rest) refl

-- The loop over the tokens of any text.
tokenize-visited :
    (fuel : ℕ) (text : List ℕ)
    → length text < fuel
    → visited fuel (tokenize text) ≡ some (keyed (parts text))
unfolding keyed tokenize
tokenize-visited zero text enough = absurd (omega arith)
tokenize-visited (suc fuel) [] enough = unfold visited at_end parts in refl
tokenize-visited (suc fuel) (c ∷ cs) enough =
    let (option, after) = find_separator (c ∷ cs) in
    elim (Bool-cases (keyless option)) [
      | inl last ↦
          visited_end fuel (tokenize (c ∷ cs)) (at_end-tokenize c cs ∙ last)
          ∙ (rw (find_separator-parts c cs, keyed, last) refl)
      | inr more ↦
          visited_more fuel (tokenize (c ∷ cs)) (keyed (parts (rest_of after)))
            (at_end-tokenize c cs ∙ more)
            (tokenize-visited fuel (rest_of after)
              (omega (arith, enough, find_separator-length c cs)))
          ∙ (rw (find_separator-parts c cs, keyed, more) refl)
    ]

-- The loop ends, with more fuel than the trimmed text has characters, and visits the parts of that
-- text in order, up to the first part without a key (an empty part, or one that begins with `=`).
pub visited-begin_options :
    (fuel : ℕ) (options : List ℕ)
    → length (trim options) < fuel
    → visited fuel (begin_options options) ≡ some (keyed (parts (trim options)))
unfolding begin_options
visited-begin_options fuel options enough = tokenize-visited fuel (trim options) enough
