-- ===== src/Text/Tokenizer/Document/Read.antt =====
-- The tokenizer on the text that is printed from a document.
use fluid_edm.Base.{ℕ, Bool, true, false, Option, List, [], ◌∷◌, ◌++◌}

-- what `find_delim` gives
abbrev Found : Type 0
Found = List ℕ × Option (List ℕ)

-- a line with its carriage return, if it has one
abbrev with_cr : Bool → List ℕ → List ℕ
with_cr true l = l ++ (13 ∷ [])
with_cr false l = l
