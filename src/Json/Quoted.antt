-- ===== src/Json/Quoted.antt =====
-- Quoted texts: what the encoder writes reads back as the text.
use fluid_edm.Base.{
  ℕ, ◌≡◌, refl, sym, ap, ◌∙◌, Bool, true, false, Option, none, some, List, [], ◌∷◌, ◌++◌, leb, ltb,
  ◌==◌, ◌&&◌, ◌||◌, not, length, arith, if-elim, if◌then◌else◌, Bool-cases, inl, inr,
}
use mathlib.Core.List.{append_assoc, append-nil}
use fluid_edm.Text.Strings.{is_empty}
use fluid_edm.Json.{Encoder, flush, add, add_all, escape, escape_all, quoted}

-- all that was sent and all that is to be sent
unfoldable pub joined : List (List ℕ) → List ℕ
joined [] = []
joined (l ∷ ls) = l ++ joined ls

unfoldable pub written : Encoder → List ℕ
written j = joined j.lines ++ j.linebuf

-- What a backslash and a character stand for in JSON; `\\u` and its digits are not needed.
abbrev pub unescape : ℕ → Option ℕ
unescape c =
    if c == b'"'
    then some b'"'
    else if c == b'\\'
    then some b'\\'
    else if c == b'/'
    then some b'/'
    else if c == b'b'
    then some 8
    else if c == b'n'
    then some 10
    else if c == b'f'
    then some 12
    else if c == b'r'
    then some 13
    else if c == b't'
    then some 9
    else none

abbrev push : Option ℕ → Option (List ℕ × List ℕ) → Option (List ℕ × List ℕ)
push none r = none
push (some c) none = none
push (some c) (some (s, rest)) = some (c ∷ s, rest)

-- A JSON string behind its first quote, and what follows it; `true` behind a backslash. A control
-- character must be escaped.
unfoldable pub read_body : Bool → List ℕ → Option (List ℕ × List ℕ)
read_body escaped [] = none
read_body true (c ∷ cs) = push (unescape c) (read_body false cs)
read_body false (c ∷ cs) =
    let plain = push (some c) (read_body false cs) in
    let after = read_body true cs in
    if c == b'"'
    then some ([], cs)
    else if c == b'\\'
    then after
    else if ltb c 32
    then none
    else plain

abbrev pub read_string : List ℕ → Option (List ℕ × List ℕ)
read_string [] = none
read_string (c ∷ cs) = if c == b'"' then read_body false cs else none

-- no control character, or one with an escape of its own
abbrev pub is_writable : ℕ → Bool
is_writable c = not (ltb c 32) || (c == 8 || (c == 9 || (c == 10 || (c == 12 || c == 13))))

abbrev pub all_writable : List ℕ → Bool
all_writable [] = true
all_writable (c ∷ cs) = is_writable c && all_writable cs

same : (c k : ℕ) → (c == k) ≡ true → c ≡ k
same c k h = ground arith

module _ (c : ℕ) (rest : List ℕ) where
  -- what reading the text of the character gives
  abbrev Reads : List ℕ → Type 0
  Reads r =
      read_body false (r ++ rest)
      ≡ (if is_writable c then push (some c) (read_body false rest) else none)

  read_body-plain :
      (c == 8) ≡ false
      → (c == 10) ≡ false
      → (c == 12) ≡ false
      → (c == 13) ≡ false
      → (c == 9) ≡ false
      → (c == b'"') ≡ false
      → (c == b'\\') ≡ false
      → Reads (c ∷ [])
  unfolding read_body
  read_body-plain b n f r t q s = elim (Bool-cases (ltb c 32)) [
    | inl control ↦ rw (b, n, f, r, t, q, s, control) refl
    | inr other ↦ rw (b, n, f, r, t, q, s, other) refl
  ]

  read_body-escape : Reads (escape c)
  unfolding read_body
  read_body-escape =
      if-elim Reads (c == 8) (λ e. rw (same c 8 e) refl)
        λ b.
          if-elim Reads (c == 10) (λ e. rw (same c 10 e) refl)
            λ n.
              if-elim Reads (c == 12) (λ e. rw (same c 12 e) refl)
                λ f.
                  if-elim Reads (c == 13) (λ e. rw (same c 13 e) refl)
                    λ r.
                      if-elim Reads (c == 9) (λ e. rw (same c 9 e) refl)
                        λ t.
                          if-elim Reads (c == b'"') (λ e. rw (same c b'"' e) refl)
                            λ q.
                              if-elim Reads (c == b'\\') (λ e. rw (same c b'\\' e) refl)
                                λ s. read_body-plain b n f r t q s

read_body-escape_all :
    (s rest : List ℕ)
    → read_body false (escape_all s ++ (b'"' ∷ rest))
      ≡ (if all_writable s then some (s, rest) else none)
unfolding escape_all read_body
read_body-escape_all [] rest = refl
read_body-escape_all (c ∷ cs) rest =
    let next = read_body-escape c (escape_all cs ++ (b'"' ∷ rest)) in
    rw (append_assoc (escape c) (escape_all cs) (b'"' ∷ rest), next, read_body-escape_all cs rest)
      (elim (Bool-cases (is_writable c)) [
        | inl good ↦
            rw good (elim (Bool-cases (all_writable cs)) [ inl e ↦ rw e refl | inr e ↦ rw e refl ])
        | inr bad ↦ rw bad refl
      ])

joined-append : (ls : List (List ℕ)) (l : List ℕ) → joined (ls ++ (l ∷ [])) ≡ joined ls ++ l
unfolding joined
joined-append [] l = append-nil l
joined-append (k ∷ ls) l = rw (joined-append ls l, append_assoc k (joined ls) l) refl

written-flush : (j : Encoder) → written (flush j) ≡ written j
unfolding written flush
written-flush j =
    if-elim (λ r. written r ≡ written j) (is_empty j.linebuf) (λ _. refl)
      (λ _. append-nil (joined (j.lines ++ (j.linebuf ∷ []))) ∙ joined-append j.lines j.linebuf)

pub written-add : (j : Encoder) (c : ℕ) → written (add j c) ≡ written j ++ (c ∷ [])
unfolding written add
written-add j c =
    let more = record j { linebuf = j.linebuf ++ (c ∷ []) } in
    let all : joined j.lines ++ (j.linebuf ++ (c ∷ []))
        ≡ (joined j.lines ++ j.linebuf) ++ (c ∷ []) =
      sym (append_assoc (joined j.lines) j.linebuf (c ∷ [])) in
    if-elim (λ r. written r ≡ written j ++ (c ∷ []))
      (j.has_channel && leb 100 (length more.linebuf)) (λ _. written-flush more ∙ all) (λ _. all)

pub written-add_all : (j : Encoder) (cs : List ℕ) → written (add_all j cs) ≡ written j ++ cs
unfolding add_all
written-add_all j [] = sym (append-nil (written j))
written-add_all j (c ∷ cs) =
    written-add_all (add j c) cs
    ∙ (ap (λ t. t ++ cs) (written-add j c) ∙ append_assoc (written j) (c ∷ []) cs)

-- a text between quotes
abbrev pub quote : List ℕ → List ℕ
quote s = b'"' ∷ (escape_all s ++ (b'"' ∷ []))

written-quoted : (j : Encoder) (s : List ℕ) → written (quoted j s) ≡ written j ++ quote s
unfolding quoted
written-quoted j s =
    let open_quote = b'"' ∷ [] in
    let body = escape_all s in
    rw
      (
        written-add (add_all (add j b'"') body) b'"',
        written-add_all (add j b'"') body,
        written-add j b'"',
      )
      (append_assoc (written j ++ open_quote) body open_quote
        ∙ append_assoc (written j) open_quote (body ++ open_quote))

-- Whatever was written before, and wherever the lines break, `quoted` adds the text between quotes. A
-- JSON reader gets the text back and stops behind it, if each of its control characters is one of the
-- five that have an escape, and else refuses it.
pub read_string-quoted :
    (j : Encoder) (s rest : List ℕ)
    → (written (quoted j s) ≡ written j ++ quote s)
      × (read_string (quote s ++ rest) ≡ (if all_writable s then some (s, rest) else none))
read_string-quoted j s rest = (
  written-quoted j s,
  rw (append_assoc (escape_all s) (b'"' ∷ []) rest) (read_body-escape_all s rest),
)
