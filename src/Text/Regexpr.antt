-- ===== src/Text/Regexpr.antt =====
-- FluidNC/src/Regexpr.cpp: a matcher with `^`, `$` and `*`, where `*` stands for any text. `matchHere`
-- and `matchStar` call each other; here the second takes the first, for the rest of the pattern, as an
-- argument.
pub mod Meaning
use fluid_edm.Base.{ℕ, Bool, true, false, List, [], ◌∷◌, ◌==◌, ◌&&◌, ◌||◌, if◌then◌else◌}
use fluid_edm.Text.Strings.{tolower, is_empty}

-- the loop of `matchStar`, which is also that of `regexMatch`
unfoldable pub match_star : (List ℕ → Bool) → List ℕ → Bool
match_star here [] = here []
match_star here (c ∷ text) =
    let later = match_star here text in if here (c ∷ text) then true else later

abbrev pub same_char : Bool → ℕ → ℕ → Bool
same_char case_sensitive r c = if case_sensitive then r == c else tolower r == tolower c

-- the comparison of the first characters
abbrev pub match_char : Bool → ℕ → (List ℕ → Bool) → List ℕ → Bool
match_char case_sensitive r here [] = false
match_char case_sensitive r here (c ∷ text) = same_char case_sensitive r c && here text

unfoldable pub match_here : Bool → List ℕ → List ℕ → Bool
match_here case_sensitive [] text = true
match_here case_sensitive (r ∷ rs) text =
    let starred = match_star (λ t. match_here case_sensitive rs t) text in
    let one = match_char case_sensitive r (λ t. match_here case_sensitive rs t) text in
    if r == b'*' then starred else if r == b'$' && is_empty rs then is_empty text else one

unfoldable pub regex_match : List ℕ → List ℕ → Bool → Bool
regex_match [] text case_sensitive = match_star (match_here case_sensitive []) text
regex_match (r ∷ rs) text case_sensitive =
    if r == b'^'
    then match_here case_sensitive rs text
    else match_star (match_here case_sensitive (r ∷ rs)) text
