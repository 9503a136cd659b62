-- ===== src/Json/Adds.antt =====
-- What the calls that write a text add to it, and what they keep.
use fluid_edm.Base.{ℕ, ◌≡◌, refl, sym, ap, ◌∙◌, List, [], ◌∷◌, ◌++◌, leb, ◌&&◌, length, if-elim}
use mathlib.Core.List.{append_assoc, append-nil}
use fluid_edm.Text.Strings.{is_empty}
use fluid_edm.Json.{Encoder, flush, add, add_all, escape_all, quoted}
use fluid_edm.Json.Quoted.{written, written-add, quote}

-- one encoder comes from another by writing a text
pub record Adds (j r : Encoder) (t : List ℕ) : Type 0 where
  pub text : written r ≡ written j ++ t
  pub level : r.level ≡ j.level
  pub count : r.count ≡ j.count
  pub channel : r.has_channel ≡ j.has_channel
  pub tag : r.has_tag ≡ j.has_tag

pub Adds-trans : (j r s : Encoder) (t u : List ℕ) → Adds j r t → Adds r s u → Adds j s (t ++ u)
Adds-trans j r s t u a b = record {
  text = b.text ∙ (ap (λ x. x ++ u) a.text ∙ append_assoc (written j) t u);
  level = b.level ∙ a.level;
  count = b.count ∙ a.count;
  channel = b.channel ∙ a.channel;
  tag = b.tag ∙ a.tag;
}

-- what `add` keeps besides the text
pub record Keeps (j r : Encoder) : Type 0 where
  pub level : r.level ≡ j.level
  pub count : r.count ≡ j.count
  pub channel : r.has_channel ≡ j.has_channel
  pub tag : r.has_tag ≡ j.has_tag

Keeps-flush : (j : Encoder) → Keeps j (flush j)
unfolding flush
Keeps-flush j =
    if-elim (Keeps j) (is_empty j.linebuf)
      (λ _. record { level = refl; count = refl; channel = refl; tag = refl })
      (λ _. record { level = refl; count = refl; channel = refl; tag = refl })

Keeps-add : (j : Encoder) (c : ℕ) → Keeps j (add j c)
unfolding add
Keeps-add j c =
    let more = record j { linebuf = j.linebuf ++ (c ∷ []) } in
    let k = Keeps-flush more in
    if-elim (Keeps j) (j.has_channel && leb 100 (length more.linebuf))
      (λ _. record { level = k.level; count = k.count; channel = k.channel; tag = k.tag })
      (λ _. record { level = refl; count = refl; channel = refl; tag = refl })

pub Adds-add : (j : Encoder) (c : ℕ) → Adds j (add j c) (c ∷ [])
Adds-add j c =
    let k = Keeps-add j c in
    record {
      text = written-add j c;
      level = k.level;
      count = k.count;
      channel = k.channel;
      tag = k.tag;
    }

pub Adds-add_all : (j : Encoder) (cs : List ℕ) → Adds j (add_all j cs) cs
unfolding add_all
Adds-add_all j [] = record {
  text = sym (append-nil (written j));
  level = refl;
  count = refl;
  channel = refl;
  tag = refl;
}
Adds-add_all j (c ∷ cs) =
    Adds-trans j (add j c) (add_all (add j c) cs) (c ∷ []) cs (Adds-add j c)
      (Adds-add_all (add j c) cs)

pub Adds-quoted : (j : Encoder) (s : List ℕ) → Adds j (quoted j s) (quote s)
unfolding quoted
Adds-quoted j s =
    let q = b'"' ∷ [] in
    let first = add j b'"' in
    let mid = add_all first (escape_all s) in
    Adds-trans j first (add mid b'"') q (escape_all s ++ q) (Adds-add j b'"') (
      Adds-trans first mid (add mid b'"') (escape_all s) q (Adds-add_all first (escape_all s))
        (Adds-add mid b'"'))
