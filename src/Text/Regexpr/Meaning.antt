-- ===== src/Text/Regexpr/Meaning.antt =====
-- What a pattern means, with no search in it, and the proof that the matcher decides it.
use fluid_edm.Base.{
  ℕ, ◌≡◌, ◌≢◌, ◌↔◌, ◌⊎◌, inl, inr, refl, ap, Bool, true, false, List, [], ◌∷◌, ◌++◌, ◌==◌, ◌&&◌,
  arith, Bool-cases,
}
use fluid_edm.Text.Strings.{is_empty}
use fluid_edm.Text.Regexpr.{match_star, same_char, match_char, match_here, regex_match}

-- The pattern describes a beginning of the text.
pub data Begins (case_sensitive : Bool) : List ℕ → List ℕ → Type 0 where
  nothing : (text : List ℕ) → Begins case_sensitive [] text
  -- `*` is any text
  star :
      (rs skipped rest text : List ℕ)
      → text ≡ skipped ++ rest
      → Begins case_sensitive rs rest
      → Begins case_sensitive (b'*' ∷ rs) text
  -- `$` at the end is the end of the text
  end : Begins case_sensitive (b'$' ∷ []) []
  -- any other character, and `$` before the end, is itself
  char :
      (r c : ℕ) (rs text : List ℕ)
      → r ≢ b'*'
      → (r ≢ b'$') ⊎ (is_empty rs ≡ false)
      → same_char case_sensitive r c ≡ true
      → Begins case_sensitive rs text
      → Begins case_sensitive (r ∷ rs) (c ∷ text)

-- The pattern describes a part of the text, or with `^` a beginning.
pub data Contains (case_sensitive : Bool) : List ℕ → List ℕ → Type 0 where
  anchored :
      (rs text : List ℕ) → Begins case_sensitive rs text → Contains case_sensitive (b'^' ∷ rs) text
  anywhere :
      (regexp before rest text : List ℕ)
      → ((r : ℕ) (rs : List ℕ) → regexp ≡ r ∷ rs → r ≢ b'^')
      → text ≡ before ++ rest
      → Begins case_sensitive regexp rest
      → Contains case_sensitive regexp text

star_sound :
    (here : List ℕ → Bool) (text : List ℕ)
    → match_star here text ≡ true
    → (skipped : List ℕ) × (rest : List ℕ) × (text ≡ skipped ++ rest) × (here rest ≡ true)
unfolding match_star
star_sound here [] h = ([], [], refl, h)
star_sound here (c ∷ text) h = elim (Bool-cases (here (c ∷ text))) [
  | inl now ↦ ([], c ∷ text, refl, now)
  | inr later ↦
      let (skipped, rest, split, found) = star_sound here text (ground (arith, later)) in
      (c ∷ skipped, rest, ap (λ (t : List ℕ). c ∷ t) split, found)
]

star_complete :
    (here : List ℕ → Bool) (skipped rest : List ℕ)
    → here rest ≡ true
    → match_star here (skipped ++ rest) ≡ true
unfolding match_star
star_complete here [] [] h = h
star_complete here [] (c ∷ rest) h = ground arith
star_complete here (s ∷ skipped) rest h = ground (arith, star_complete here skipped rest h)

is_empty-nil : (xs : List ℕ) → is_empty xs ≡ true → xs ≡ []
is_empty-nil [] h = refl
is_empty-nil (x ∷ xs) h = cc

module _ (cs : Bool) where
  char_sound :
      (r : ℕ) (rs text : List ℕ)
      → ((t : List ℕ) → match_here cs rs t ≡ true → Begins cs rs t)
      → (r ≢ b'*')
      → (r == b'$' && is_empty rs) ≡ false
      → match_char cs r (λ t. match_here cs rs t) text ≡ true
      → Begins cs (r ∷ rs) text
  char_sound r rs [] ih plain open_end h = cc
  char_sound r rs (c ∷ text) ih plain open_end h =
      char r c rs text plain (ground (arith, open_end)) (ground (arith, h))
        (ih text (ground (arith, h)))

  match_here_sound : (rs text : List ℕ) → match_here cs rs text ≡ true → Begins cs rs text
  unfolding match_here
  match_here_sound [] text h = nothing text
  match_here_sound (r ∷ rs) text h = elim (Bool-cases (r == b'*')) [
    | inl starred ↦
        let (skipped, rest, split, found) =
          star_sound (λ t. match_here cs rs t) text (ground (arith, h, starred)) in
        let is_star : r ≡ b'*' = ground (arith, starred) in
        rw is_star (star rs skipped rest text split (match_here_sound rs rest found))
    | inr plain ↦ elim (Bool-cases (r == b'$' && is_empty rs)) [
      | inl last ↦
          let is_end : r ≡ b'$' = ground (arith, last) in
          let no_more = is_empty-nil rs (ground (arith, last)) in
          let no_text = is_empty-nil text (ground (arith, h, plain, last)) in
          rw (is_end, no_more, no_text) end
      | inr more ↦
          char_sound r rs text (λ t. match_here_sound rs t) (ground (arith, plain)) more
            (ground (arith, h, plain, more))
    ]
  ]

  match_here_complete : (rs text : List ℕ) → Begins cs rs text → match_here cs rs text ≡ true
  unfolding match_here
  match_here_complete _ _ (nothing text) = refl
  match_here_complete _ _ (star rs skipped rest text split b) =
      rw split
        (star_complete (λ t. match_here cs rs t) skipped rest (match_here_complete rs rest b))
  match_here_complete _ _ end = refl
  match_here_complete _ _ (char r c rs text plain open_end same b) =
      ground (arith, open_end, same, match_here_complete rs text b)

  search_sound :
      (regexp text : List ℕ)
      → ((r : ℕ) (rs : List ℕ) → regexp ≡ r ∷ rs → r ≢ b'^')
      → match_star (match_here cs regexp) text ≡ true
      → Contains cs regexp text
  search_sound regexp text plain h =
      let (before, rest, split, found) = star_sound (match_here cs regexp) text h in
      anywhere regexp before rest text plain split (match_here_sound regexp rest found)

  regex_match_sound :
      (regexp text : List ℕ) → regex_match regexp text cs ≡ true → Contains cs regexp text
  unfolding regex_match
  regex_match_sound [] text h = search_sound [] text (λ r rs e. cc) h
  regex_match_sound (r ∷ rs) text h = elim (Bool-cases (r == b'^')) [
    | inl first ↦
        let is_caret : r ≡ b'^' = ground (arith, first) in
        rw is_caret (anchored rs text (match_here_sound rs text (ground (arith, h, first))))
    | inr other ↦
        search_sound (r ∷ rs) text (λ q qs e. grind (arith, other, e)) (ground (arith, h, other))
  ]

  regex_match_complete :
      (regexp text : List ℕ) → Contains cs regexp text → regex_match regexp text cs ≡ true
  unfolding regex_match
  regex_match_complete _ _ (anchored rs text b) = match_here_complete rs text b
  regex_match_complete _ _ (anywhere [] before rest text plain split b) =
      rw split (star_complete (match_here cs []) before rest (match_here_complete [] rest b))
  regex_match_complete _ _ (anywhere (r ∷ rs) before rest text plain split b) =
      let other : (r == b'^') ≡ false = ground (arith, plain r rs refl) in
      rw (other, split)
        (star_complete (match_here cs (r ∷ rs)) before rest (match_here_complete (r ∷ rs) rest b))

  -- The matcher answers true exactly when the pattern describes a part of the text, as the meaning of
  -- `^`, `$`, `*` and the other characters defines it.
  pub regex_match_iff :
      (regexp text : List ℕ) → (regex_match regexp text cs ≡ true) ↔ Contains cs regexp text
  regex_match_iff regexp text = (regex_match_sound regexp text, regex_match_complete regexp text)
