-- ===== src/Text/Passthrough/Fields.antt =====
-- The loop of `uartPassthrough` against the fields of the text.
use fluid_edm.Base.{
  ℕ, glue, zero, suc, ◌<◌, ◌≡◌, ◌≢◌, refl, ap, none, some, List, [], ◌∷◌, arith, length, ◌==◌,
  if◌then◌else◌, Bool-cases, inl, inr, Option-cases,
}
use fluid_edm.Text.Strings.{find_delim, rest_of, split_prefix}
use fluid_edm.Text.Passthrough.{PassOptions, Passed, invalid, passed, read_option, read_options}

-- The fields of a text, each ended by a comma or by the end of the text.
unfoldable pub fields : List ℕ → List (List ℕ)
fields [] = []
fields (x ∷ xs) = if x == b',' then [] ∷ fields xs else glue x (fields xs)

-- The fields read in order, up to the first that is refused.
unfoldable pub read_fields : PassOptions → List (List ℕ) → Passed
read_fields options [] = passed options
read_fields options (f ∷ fs) = elim (read_option options f) [
  | none ↦ invalid
  | some options ↦ read_fields options fs
]

find_delim-fields :
    (x : ℕ) (xs : List ℕ)
    → let (before, after) = find_delim b',' (x ∷ xs) in
      fields (x ∷ xs) ≡ before ∷ fields (rest_of after)
unfolding find_delim fields
find_delim-fields x [] = elim (Bool-cases (x == b',')) [
  | inl comma ↦ rw comma refl
  | inr other ↦ rw other refl
]
find_delim-fields x (y ∷ ys) = elim (Bool-cases (x == b',')) [
  | inl comma ↦ rw comma refl
  | inr other ↦ rw other (ap (glue x) (find_delim-fields y ys))
]

some≢none : (a : List ℕ) → some a ≢ none
some≢none a = cc

find_delim-whole : (xs : List ℕ) → (find_delim b',' xs).1 ≡ none → (find_delim b',' xs).0 ≡ xs
unfolding find_delim
find_delim-whole [] h = refl
find_delim-whole (x ∷ xs) h = elim (Bool-cases (x == b',')) [
  | inl comma ↦ absurd (some≢none xs (ground (arith, comma)))
  | inr other ↦ rw other (ap (λ (t : List ℕ). x ∷ t) (find_delim-whole xs (ground (arith, other))))
]

find_delim-length :
    (x : ℕ) (xs : List ℕ)
    → let (before, after) = find_delim b',' (x ∷ xs) in length (rest_of after) < length (x ∷ xs)
unfolding find_delim
find_delim-length x [] = elim (Bool-cases (x == b',')) [
  | inl comma ↦ rw comma (omega arith)
  | inr other ↦ rw other (omega arith)
]
find_delim-length x (y ∷ ys) = elim (Bool-cases (x == b',')) [
  | inl comma ↦ rw comma (omega arith)
  | inr other ↦ rw other (omega (arith, find_delim-length y ys))
]

split_prefix_lem :
    (x : ℕ) (xs : List ℕ)
    → let (before, after) = find_delim b',' (x ∷ xs) in
      split_prefix (x ∷ xs) b',' ≡ some (before, rest_of after)
unfolding split_prefix
split_prefix_lem x xs = elim (Option-cases (find_delim b',' (x ∷ xs)).1) [
  | inl whole ↦ rw (split_prefix, whole, find_delim-whole (x ∷ xs) whole) refl
  | inr (rest, cut) ↦ rw (split_prefix, cut) refl
]

-- The loop ends with more fuel than the text has characters, and has then read the fields of the text
-- in order, up to the first that is refused.
pub read_options-fields :
    (fuel : ℕ) (options : PassOptions) (rest : List ℕ)
    → length rest < fuel
    → read_options fuel options rest ≡ read_fields options (fields rest)
unfolding read_options read_fields
read_options-fields zero options rest enough = absurd (omega arith)
read_options-fields (suc fuel) options [] enough = unfold split_prefix fields in refl
read_options-fields (suc fuel) options (x ∷ xs) enough =
    let (before, after) = find_delim b',' (x ∷ xs) in
    rw (read_options, split_prefix_lem x xs, find_delim-fields x xs)
      (elim (Option-cases (read_option options before)) [
        | inl refused ↦ rw (read_fields, refused) refl
        | inr (new, read) ↦
            rw (read_fields, read)
              (read_options-fields fuel new (rest_of after)
                (omega (arith, enough, find_delim-length x xs)))
      ])
