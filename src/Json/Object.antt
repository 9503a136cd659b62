-- ===== src/Json/Object.antt =====
-- An object of plain members: the commas and braces that the encoder writes, by its counts and levels.
use fluid_edm.Base.{
  ℕ, ◌+◌, ◌^◌, ◌≡◌, ◌<◌, refl, sym, ap, ◌∙◌, Bool, true, false, List, [], ◌∷◌, ◌++◌, ◌==◌, length,
  arith, if◌then◌else◌,
}
use native.Mathlib.Nat.{mod-eq_of_lt}
use mathlib.Core.List.{append_assoc, append-nil}
use fluid_edm.Json.{
  Encoder, new_encoder, put_count, add, add_all, without_newlines, verbatim, quoted, inc_level,
  dec_level, line, counted, comma_line, begin_member, bare_member, begin_object, end_object,
}
use fluid_edm.Json.Quoted.{joined, written, written-add, quote}
use fluid_edm.Json.Adds.{Adds, Adds-trans, Adds-add, Adds-add_all, Adds-quoted}

-- "tag":value
abbrev pub member_text : List ℕ → List ℕ → List ℕ
member_text tag value = quote tag ++ (b':' ∷ without_newlines value)

-- a member behind the comma
Adds-value :
    (j : Encoder) (tag value : List ℕ)
    → Adds j (verbatim (add (quoted j tag) b':') value) (member_text tag value)
unfolding verbatim
Adds-value j tag value =
    let a = quoted j tag in
    let b = add a b':' in
    let v = without_newlines value in
    Adds-trans j a (add_all b v) (quote tag) (b':' ∷ v) (Adds-quoted j tag)
      (Adds-trans a b (add_all b v) (b':' ∷ []) v (Adds-add a b':') (Adds-add_all b v))

-- the members of an object, in order
unfoldable pub put_members : Encoder → List (List ℕ × List ℕ) → Encoder
put_members j [] = j
put_members j ((tag, value) ∷ ms) = put_members (bare_member j tag value) ms

abbrev pub print_rest : List (List ℕ × List ℕ) → List ℕ
print_rest [] = []
print_rest ((tag, value) ∷ ms) = b',' ∷ (member_text tag value ++ print_rest ms)

-- {"tag":value,...}
abbrev pub print_object : List (List ℕ × List ℕ) → List ℕ
print_object [] = b'{' ∷ b'}' ∷ []
print_object ((tag, value) ∷ ms) = b'{' ∷ (member_text tag value ++ (print_rest ms ++ (b'}' ∷ [])))

-- a call that writes a text, and takes the count of the present level to `n`
record Member (j r : Encoder) (t : List ℕ) (n : ℕ) : Type 0 where
  text : written r ≡ written j ++ t
  level : r.level ≡ j.level
  count : r.count r.level ≡ n
  channel : r.has_channel ≡ j.has_channel
  tag : r.has_tag ≡ j.has_tag

picked : (b : Bool) (x y : Encoder) → b ≡ true → (if b then x else y) ≡ x
picked true x y h = refl
picked false x y h = cc

if_other : (b : Bool) (x y : Encoder) → b ≡ false → (if b then x else y) ≡ y
if_other true x y h = cc
if_other false x y h = refl

zero_test : {m : ℕ} → m ≡ 0 → (m == 0) ≡ true
zero_test e = ground (arith, e)

other_test : {m n : ℕ} → m ≡ n → 0 < n → (m == 0) ≡ false
other_test e h = ground (arith, e, h)

put_self : (count : ℕ → ℕ) (l n : ℕ) → put_count count l n l ≡ n
put_self count l n = ground arith

line-tagged : (j : Encoder) → j.has_channel ≡ true → j.has_tag ≡ true → line j ≡ j
unfolding line
line-tagged j c t = picked j.has_channel _ _ c ∙ picked j.has_tag _ _ t

counted-Member :
    (j : Encoder) (n : ℕ) → j.count j.level ≡ n → n + 1 < 2 ^ 32 → Member j (counted j) [] (n + 1)
unfolding written
counted-Member j n e small = record {
  text = sym (append-nil (written j));
  level = refl;
  count = rw (put_self j.count j.level _, e) (mod-eq_of_lt {n = n + 1} {m = 2 ^ 32} small);
  channel = refl;
  tag = refl;
}

Member-after :
    (j k r : Encoder) (t u : List ℕ) (n : ℕ) → Member j k t n → Adds k r u → Member j r (t ++ u) n
Member-after j k r t u n a b = record {
  text = b.text ∙ (ap (λ x. x ++ u) a.text ∙ append_assoc (written j) t u);
  level = b.level ∙ a.level;
  count = rw (b.level, b.count) a.count;
  channel = b.channel ∙ a.channel;
  tag = b.tag ∙ a.tag;
}

Member-behind :
    (j k r : Encoder) (t u : List ℕ) (n : ℕ) → Adds j k t → Member k r u n → Member j r (t ++ u) n
Member-behind j k r t u n a b = record {
  text = b.text ∙ (ap (λ x. x ++ u) a.text ∙ append_assoc (written j) t u);
  level = b.level ∙ a.level;
  count = b.count;
  channel = b.channel ∙ a.channel;
  tag = b.tag ∙ a.tag;
}

module _ (j : Encoder) (tag value : List ℕ) (n : ℕ) (small : n + 1 < 2 ^ 32)
    (e : j.count j.level ≡ n) where
  first-Member : n ≡ 0 → Member j (bare_member j tag value) (member_text tag value) (n + 1)
  unfolding begin_member comma_line
  first-Member z =
      let same : comma_line j ≡ counted j =
        ap counted (picked (j.count j.level == 0) j _ (zero_test (e ∙ z))) in
      rw (begin_member, same)
        (Member-after j (counted j) _ [] (member_text tag value) (n + 1)
          (counted-Member j n e small) (Adds-value (counted j) tag value))

  next-Member :
      0 < n
      → j.has_channel ≡ true
      → j.has_tag ≡ true
      → Member j (bare_member j tag value) (b',' ∷ member_text tag value) (n + 1)
  unfolding begin_member comma_line
  next-Member z c t =
      let a = Adds-add j b',' in
      let k = add j b',' in
      let same : comma_line j ≡ counted k = ap counted (
        if_other (j.count j.level == 0) j (line k) (other_test e z)
        ∙ line-tagged k (a.channel ∙ c) (a.tag ∙ t)) in
      let m =
        Member-behind j k (counted k) (b',' ∷ []) [] (n + 1) a
          (counted-Member k n (rw (a.level, a.count) e) small) in
      rw (begin_member, same)
        (Member-after j (counted k) _ (b',' ∷ []) (member_text tag value) (n + 1) m
          (Adds-value (counted k) tag value))

put_rest :
    (ms : List (List ℕ × List ℕ)) (j : Encoder) (n : ℕ)
    → j.has_channel ≡ true
    → j.has_tag ≡ true
    → j.count j.level ≡ n
    → 0 < n
    → n + length ms < 2 ^ 32
    → Member j (put_members j ms) (print_rest ms) (n + length ms)
unfolding put_members
put_rest [] j n c t e z small = record {
  text = sym (append-nil (written j));
  level = refl;
  count = e ∙ omega arith;
  channel = refl;
  tag = refl;
}
put_rest ((tag, value) ∷ ms) j n c t e z small =
    let k = bare_member j tag value in
    let a = next-Member j tag value n (omega (arith, small)) e z c t in
    let b =
      put_rest ms k (n + 1) (a.channel ∙ c) (a.tag ∙ t) a.count (omega arith)
        (omega (arith, small)) in
    record {
      text =
          b.text
          ∙ (ap (λ x. x ++ print_rest ms) a.text
              ∙ append_assoc (written j) (b',' ∷ member_text tag value) (print_rest ms));
      level = b.level ∙ a.level;
      count = b.count ∙ omega arith;
      channel = b.channel ∙ a.channel;
      tag = b.tag ∙ a.tag;
    }

-- an encoder of a channel with a tag, behind the first brace
abbrev opened : (ℕ → ℕ) → Encoder
opened garbage = begin_object (new_encoder garbage true true)

closed :
    (r : Encoder) (t : List ℕ)
    → r.has_channel ≡ true
    → r.has_tag ≡ true
    → written r ≡ t
    → written (end_object r) ≡ t ++ (b'}' ∷ [])
unfolding end_object dec_level written
closed r t c g e =
    let d = dec_level r in
    rw (end_object, line-tagged d c g) (written-add d b'}' ∙ ap (λ x. x ++ (b'}' ∷ [])) e)

-- Whatever the counts that the constructor leaves alone hold, a new encoder with a channel and a tag
-- that opens an object, writes fewer than 2^32 - 1 members and closes it has written the object with
-- its braces, the members in order and a comma between any two of them.
pub end_object-print_object :
    (garbage : ℕ → ℕ) (ms : List (List ℕ × List ℕ))
    → length ms + 1 < 2 ^ 32
    → written (end_object (put_members (begin_object (new_encoder garbage true true)) ms))
      ≡ print_object ms
unfolding put_members begin_object new_encoder inc_level comma_line add written joined
end_object-print_object garbage [] small = closed (opened garbage) (b'{' ∷ []) refl refl refl
end_object-print_object garbage ((tag, value) ∷ ms) small =
    let m = member_text tag value in
    let k = bare_member (opened garbage) tag value in
    let a = first-Member (opened garbage) tag value 0 (omega arith) refl refl in
    let b = put_rest ms k 1 a.channel a.tag a.count (omega arith) (omega (arith, small)) in
    closed (put_members k ms) (b'{' ∷ (m ++ print_rest ms)) (b.channel ∙ a.channel) (b.tag ∙ a.tag)
      (b.text ∙ ap (λ x. x ++ print_rest ms) a.text)
    ∙ ap (λ x. b'{' ∷ x) (append_assoc m (print_rest ms) (b'}' ∷ []))
