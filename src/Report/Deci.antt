-- ===== src/Report/Deci.antt =====
-- Numbers in tenths: what a JSON reader makes of the text of `num_deci`.
use fluid_edm.Base.{ℕ, ◌+◌, ◌-◌, ◌*◌, Option, none, some, List, [], ◌∷◌, ◌==◌, if◌then◌else◌}
use fluid_edm.Base.Int.{ℤ, pos, neg}
use fluid_edm.Text.Strings.{is_digit}

-- one digit behind the point, and the end
abbrev pub read_frac : ℕ → List ℕ → Option ℕ
read_frac a [] = none
read_frac a (c ∷ []) = if is_digit c then some (a * 10 + (c - 48)) else none
read_frac a (c ∷ d ∷ cs) = none

-- further digits of the whole part, up to the point
abbrev pub read_whole : ℕ → List ℕ → Option ℕ
read_whole a [] = none
read_whole a (c ∷ cs) =
    let more = read_whole (a * 10 + (c - 48)) cs in
    if c == b'.' then read_frac a cs else if is_digit c then more else none

abbrev pub read_point : ℕ → List ℕ → Option ℕ
read_point a [] = none
read_point a (c ∷ cs) = if c == b'.' then read_frac a cs else none

-- a number without a sign: its whole part is 0, or does not begin with 0
abbrev pub read_size : List ℕ → Option ℕ
read_size [] = none
read_size (c ∷ cs) =
    if c == b'0' then read_point 0 cs else if is_digit c then read_whole (c - 48) cs else none

abbrev signed : (ℕ → ℤ) → Option ℕ → Option ℤ
signed sign none = none
signed sign (some n) = some (sign n)

-- A JSON number with one decimal, in tenths. There is a minus before it or none.
abbrev pub read_tenths : List ℕ → Option ℤ
read_tenths [] = none
read_tenths (c ∷ cs) =
    if c == b'-' then signed (λ n. neg (pos n)) (read_size cs) else signed pos (read_size (c ∷ cs))
