-- ===== src/Text/Tokenizer/Document/Pieces.antt =====
-- What the loops of the tokenizer make of the pieces of a printed line.
use fluid_edm.Base.{
  ℕ, zero, suc, ◌+◌, ◌≡◌, ◌<◌, refl, ap, ◌∙◌, Bool, true, false, none, some, List, [], ◌∷◌, ◌++◌,
  leb, ◌==◌, ◌&&◌, not, arith, glue, Bool-cases, inl, inr,
}
use fluid_edm.Text.Strings.{find_delim}
use fluid_edm.Text.Tokenizer.{
  is_white_space, is_identifier_char, strip_cr, read_indent, strip_end, skip_white_space,
}
use fluid_edm.Text.Tokenizer.Lines.{lines_of}
use fluid_edm.Text.Tokenizer.Document.{spaces, absent, ends_well, begins_nothing}

-- both parts of a conjunction
pub both : (a b : Bool) → (a && b) ≡ true → (a ≡ true) × (b ≡ true)
both true b h = (refl, h)
both false b h = cc

pub negated : (a : Bool) → not a ≡ true → a ≡ false
negated true h = cc
negated false h = refl

pub absent-parts :
    (d c : ℕ) (cs : List ℕ) → absent d (c ∷ cs) ≡ true → ((c == d) ≡ false) × (absent d cs ≡ true)
absent-parts d c cs h =
    let (first, others) = both (not (c == d)) (absent d cs) h in (negated (c == d) first, others)

pub absent-append :
    (d : ℕ) (xs ys : List ℕ) → absent d xs ≡ true → absent d ys ≡ true → absent d (xs ++ ys) ≡ true
absent-append d [] ys h k = k
absent-append d (x ∷ xs) ys h k =
    let (first, others) = absent-parts d x xs h in rw (first, absent-append d xs ys others k) refl

pub absent-spaces : (d n : ℕ) → (b' ' == d) ≡ false → absent d (spaces n) ≡ true
absent-spaces d zero h = refl
absent-spaces d (suc n) h = rw (h, absent-spaces d n h) refl

pub lines_of-line :
    (l rest : List ℕ) → absent 10 l ≡ true → lines_of (l ++ (10 ∷ rest)) ≡ l ∷ lines_of rest
unfolding lines_of
lines_of-line [] rest h = refl
lines_of-line (c ∷ l) rest h =
    let (first, others) = absent-parts 10 c l h in
    rw first (ap (glue c) (lines_of-line l rest others))

pub find_delim-found :
    (d : ℕ) (l rest : List ℕ) → absent d l ≡ true → find_delim d (l ++ (d ∷ rest)) ≡ (l, some rest)
unfolding find_delim
find_delim-found d [] rest h = let same : (d == d) ≡ true = ground arith in rw same refl
find_delim-found d (c ∷ l) rest h =
    let (first, others) = absent-parts d c l h in rw (first, find_delim-found d l rest others) refl

pub find_delim-absent : (d : ℕ) (l : List ℕ) → absent d l ≡ true → find_delim d l ≡ (l, none)
unfolding find_delim
find_delim-absent d [] h = refl
find_delim-absent d (c ∷ l) h =
    let (first, others) = absent-parts d c l h in rw (first, find_delim-absent d l others) refl

pub strip_cr-none : (l : List ℕ) → absent 13 l ≡ true → strip_cr l ≡ l
unfolding strip_cr
strip_cr-none [] h = refl
strip_cr-none (c ∷ l) h =
    let (first, others) = absent-parts 13 c l h in rw (first, strip_cr-none l others) refl

pub strip_cr-one : (l : List ℕ) → absent 13 l ≡ true → strip_cr (l ++ (13 ∷ [])) ≡ l
unfolding strip_cr
strip_cr-one [] h = refl
strip_cr-one (c ∷ l) h =
    let (first, others) = absent-parts 13 c l h in rw (first, strip_cr-one l others) refl

pub read_indent-spaces :
    (k n : ℕ) (rest : List ℕ) → read_indent k (spaces n ++ rest) ≡ read_indent (k + n) rest
unfolding read_indent
read_indent-spaces k zero rest = ap (λ (j : ℕ). read_indent j rest) (omega arith)
read_indent-spaces k (suc n) rest =
    read_indent-spaces (suc k) n rest ∙ ap (λ (j : ℕ). read_indent j rest) (omega arith)

pub strip_end-spaces : (m : ℕ) → strip_end (spaces m) ≡ []
unfolding strip_end
strip_end-spaces zero = refl
strip_end-spaces (suc m) = rw (strip_end-spaces m) refl

strip_end-front :
    (c : ℕ) (xs : List ℕ) (d : ℕ) (cs : List ℕ)
    → strip_end xs ≡ d ∷ cs
    → strip_end (c ∷ xs) ≡ c ∷ d ∷ cs
unfolding strip_end
strip_end-front c xs d cs h = elim (Bool-cases (is_white_space c)) [
  | inl white ↦ rw (h, white) refl
  | inr other ↦ rw (h, other) refl
]

-- The spaces behind a key go.
pub strip_end-key :
    (c : ℕ) (cs : List ℕ) (m : ℕ)
    → ends_well (c ∷ cs) ≡ true
    → strip_end ((c ∷ cs) ++ spaces m) ≡ c ∷ cs
unfolding strip_end
strip_end-key c [] m h = rw (strip_end-spaces m, negated (is_white_space c) h) refl
strip_end-key c (d ∷ cs) m h =
    strip_end-front c ((d ∷ cs) ++ spaces m) d cs (strip_end-key d cs m h)

pub skip_white_space-spaces :
    (k : ℕ) (rest : List ℕ) → skip_white_space (spaces k ++ rest) ≡ skip_white_space rest
unfolding skip_white_space
skip_white_space-spaces zero rest = refl
skip_white_space-spaces (suc k) rest = skip_white_space-spaces k rest

pub indent_fits : (n : ℕ) → n < 128 → leb 128 n ≡ false
indent_fits n h = ground (arith, h)

-- what the first character of a key is not
pub identifier_first :
    (c : ℕ)
    → is_identifier_char c ≡ true
    → ((c == b' ') ≡ false) × ((c == 9) ≡ false) × ((c == b'#') ≡ false)
identifier_first c h = (ground (arith, h), ground (arith, h), ground (arith, h))

pub nothing_first :
    (c : ℕ)
    → begins_nothing c ≡ true
    → ((c == b' ') ≡ false)
      × ((c == 9) ≡ false)
      × ((c == b'#') ≡ false)
      × (is_identifier_char c ≡ false)
nothing_first c h =
    let (space, others) =
      both (not (c == b' ')) (not (c == 9) && (not (c == b'#') && not (is_identifier_char c))) h in
    let (tab, more) = both (not (c == 9)) (not (c == b'#') && not (is_identifier_char c)) others in
    let (sharp, key) = both (not (c == b'#')) (not (is_identifier_char c)) more in
    (negated _ space, negated _ tab, negated _ sharp, negated _ key)
