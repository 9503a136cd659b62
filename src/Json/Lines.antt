-- ===== src/Json/Lines.antt =====
-- The lines that the encoder sends to a channel with a tag.
use fluid_edm.Base.{
  ℕ, ◌+◌, ◌%◌, ◌^◌, ◌≡◌, ◌≤◌, ◌<◌, refl, Bool, true, false, List, [], ◌∷◌, ◌++◌, leb, ◌==◌, ◌&&◌,
  length, All, All-append, length-append, arith, if-elim,
}
use fluid_edm.Text.Strings.{is_empty}
use fluid_edm.Json.{
  Encoder, put_count, flush, add, add_all, without_newlines, verbatim, escape_all, quoted,
  inc_level, dec_level, line, counted, comma_line, comma, string, begin_member, begin_array,
  end_array, begin_member_object, begin_object, end_object, member, end_json, id_value_object,
  set_category, begin_webui, begin_webui_range,
}

-- the calls of the encoder
pub data Call : Type 0 where
  call_string call_begin_member call_begin_array call_begin_member_object call_verbatim :
      List ℕ → Call
  call_end_array call_begin_object call_end_object call_comma call_end : Call
  call_set_category : List ℕ → Call
  call_member call_id_value_object : List ℕ → List ℕ → Call
  call_begin_webui : List ℕ → List ℕ → List ℕ → Call
  call_begin_webui_range : List ℕ → List ℕ → List ℕ → List ℕ → List ℕ → Call

unfoldable pub do_call : Encoder → Call → Encoder
do_call j (call_string s) = string j s
do_call j (call_begin_member tag) = begin_member j tag
do_call j (call_begin_array tag) = begin_array j tag
do_call j (call_begin_member_object tag) = begin_member_object j tag
do_call j (call_verbatim s) = verbatim j s
do_call j call_end_array = end_array j
do_call j call_begin_object = begin_object j
do_call j call_end_object = end_object j
do_call j call_comma = comma j
do_call j call_end = end_json j
do_call j (call_member tag value) = member j tag value
do_call j (call_id_value_object id value) = id_value_object j id value
do_call j (call_set_category cat) = set_category j cat
do_call j (call_begin_webui name type val) = begin_webui j name type val
do_call j (call_begin_webui_range name type val smallest largest) =
    begin_webui_range j name type val smallest largest

unfoldable pub do_calls : Encoder → List Call → Encoder
do_calls j [] = j
do_calls j (c ∷ cs) = do_calls (do_call j c) cs

pub record IsPacked (j : Encoder) : Type 0 where
  pub channel : j.has_channel ≡ true
  pub tag : j.has_tag ≡ true
  pub unsent : length j.linebuf < 100
  pub sent : All (λ l. length l ≤ 100) j.lines

same_lines :
    (j : Encoder) (l : ℕ) (c : ℕ → ℕ) → IsPacked j → IsPacked (record j { level = l; count = c })
same_lines j l c h = record { channel = h.channel; tag = h.tag; unsent = h.unsent; sent = h.sent }

empty_length : (b : List ℕ) → is_empty b ≡ true → length b ≡ 0
empty_length [] h = refl
empty_length (c ∷ b) h = cc

flush-IsPacked :
    (j : Encoder)
    → j.has_channel ≡ true
    → j.has_tag ≡ true
    → length j.linebuf ≤ 100
    → All (λ l. length l ≤ 100) j.lines
    → IsPacked (flush j)
unfolding flush
flush-IsPacked j channel tag short sent =
    if-elim IsPacked (is_empty j.linebuf)
      (λ e. record {
        channel = channel;
        tag = tag;
        unsent = omega (arith, empty_length j.linebuf e);
        sent = sent;
      })
      (λ _. record {
        channel = channel;
        tag = tag;
        unsent = omega arith;
        sent = All-append (λ l. length l ≤ 100) j.lines (j.linebuf ∷ []) sent (short, tt);
      })

below : (n : ℕ) → leb 100 n ≡ false → n < 100
below n h = ground (arith, h)

add-IsPacked : (j : Encoder) (c : ℕ) → IsPacked j → IsPacked (add j c)
unfolding add
add-IsPacked j c h =
    let more = record j { linebuf = j.linebuf ++ (c ∷ []) } in
    let size : length more.linebuf ≤ 100 =
      omega (arith, h.unsent, length-append j.linebuf (c ∷ [])) in
    if-elim IsPacked (j.has_channel && leb 100 (length more.linebuf))
      (λ _. flush-IsPacked more h.channel h.tag size h.sent)
      (λ e. record {
        channel = h.channel;
        tag = h.tag;
        unsent = below (length more.linebuf) (rw h.channel at e);
        sent = h.sent;
      })

add_all-IsPacked : (cs : List ℕ) (j : Encoder) → IsPacked j → IsPacked (add_all j cs)
unfolding add_all
add_all-IsPacked [] j h = h
add_all-IsPacked (c ∷ cs) j h = add_all-IsPacked cs (add j c) (add-IsPacked j c h)

clash : (b : Bool) → b ≡ true → b ≡ false → ⊥
clash b p q = cc

line-IsPacked : (j : Encoder) → IsPacked j → IsPacked (line j)
unfolding line
line-IsPacked j h =
    if-elim IsPacked j.has_channel
      (λ _. if-elim IsPacked j.has_tag (λ _. h) (λ e. absurd (clash j.has_tag h.tag e)))
      (λ e. absurd (clash j.has_channel h.channel e))

counted-IsPacked : (j : Encoder) → IsPacked j → IsPacked (counted j)
counted-IsPacked j h =
    same_lines j j.level (put_count j.count j.level ((j.count j.level + 1) % 2 ^ 32)) h

module _ (j : Encoder) (h : IsPacked j) where
  quoted-IsPacked : (s : List ℕ) → IsPacked (quoted j s)
  unfolding quoted
  quoted-IsPacked s =
      add-IsPacked _ b'"' (add_all-IsPacked (escape_all s) _ (add-IsPacked j b'"' h))

  comma_line-IsPacked : IsPacked (comma_line j)
  unfolding comma_line
  comma_line-IsPacked = counted-IsPacked _ (
      if-elim IsPacked (j.count j.level == 0) (λ _. h)
        (λ _. line-IsPacked _ (add-IsPacked j b',' h)))

  comma-IsPacked : IsPacked (comma j)
  unfolding comma
  comma-IsPacked =
      counted-IsPacked _
        (if-elim IsPacked (j.count j.level == 0) (λ _. h) (λ _. add-IsPacked j b',' h))

  inc_level-IsPacked : IsPacked (inc_level j)
  unfolding inc_level
  inc_level-IsPacked = same_lines j _ _ h

  closed-IsPacked : (c : ℕ) → IsPacked (add (line (dec_level j)) c)
  unfolding dec_level
  closed-IsPacked c = add-IsPacked _ c (line-IsPacked (dec_level j) (same_lines j _ j.count h))

module _ (j : Encoder) (h : IsPacked j) where
  begin_member-IsPacked : (tag : List ℕ) → IsPacked (begin_member j tag)
  unfolding begin_member
  begin_member-IsPacked tag =
      add-IsPacked _ b':' (quoted-IsPacked (comma_line j) (comma_line-IsPacked j h) tag)

  begin_object-IsPacked : IsPacked (begin_object j)
  unfolding begin_object
  begin_object-IsPacked = inc_level-IsPacked _ (add-IsPacked _ b'{' (comma_line-IsPacked j h))

  member-IsPacked : (tag value : List ℕ) → IsPacked (member j tag value)
  unfolding member
  member-IsPacked tag value = quoted-IsPacked _ (begin_member-IsPacked tag) value

begin_webui-IsPacked :
    (j : Encoder) (name type val : List ℕ) → IsPacked j → IsPacked (begin_webui j name type val)
unfolding begin_webui
begin_webui-IsPacked j name type val h =
    let f = member-IsPacked _ (begin_object-IsPacked j h) (b'F' ∷ []) (begin_object j).category in
    let p = member-IsPacked _ f (b'P' ∷ []) name in
    let n = member-IsPacked _ p (b'H' ∷ []) name in
    member-IsPacked _ (member-IsPacked _ n (b'T' ∷ []) type) (b'V' ∷ []) val

do_call-IsPacked : (j : Encoder) (c : Call) → IsPacked j → IsPacked (do_call j c)
unfolding do_call string begin_array begin_member_object verbatim end_array end_object end_json
    id_value_object begin_webui_range
do_call-IsPacked j (call_string s) h = quoted-IsPacked _ (comma_line-IsPacked j h) s
do_call-IsPacked j (call_begin_member tag) h = begin_member-IsPacked j h tag
do_call-IsPacked j (call_begin_array tag) h =
    line-IsPacked _ (inc_level-IsPacked _ (add-IsPacked _ b'[' (begin_member-IsPacked j h tag)))
do_call-IsPacked j (call_begin_member_object tag) h =
    let opened = add-IsPacked _ b':' (quoted-IsPacked _ (comma_line-IsPacked j h) tag) in
    inc_level-IsPacked _ (add-IsPacked _ b'{' opened)
do_call-IsPacked j (call_verbatim s) h = add_all-IsPacked (without_newlines s) j h
do_call-IsPacked j call_end_array h = closed-IsPacked j h b']'
do_call-IsPacked j call_begin_object h = begin_object-IsPacked j h
do_call-IsPacked j call_end_object h = closed-IsPacked j h b'}'
do_call-IsPacked j call_comma h = comma-IsPacked j h
do_call-IsPacked j call_end h =
    let k = line-IsPacked _ (closed-IsPacked j h b'}') in
    flush-IsPacked _ k.channel k.tag (omega (arith, k.unsent)) k.sent
do_call-IsPacked j (call_member tag value) h = member-IsPacked j h tag value
do_call-IsPacked j (call_id_value_object id value) h =
    closed-IsPacked _
      (member-IsPacked _ (member-IsPacked _ (begin_object-IsPacked j h) _ id) _ value) b'}'
do_call-IsPacked j (call_set_category cat) h = record {
  channel = h.channel;
  tag = h.tag;
  unsent = h.unsent;
  sent = h.sent;
}
do_call-IsPacked j (call_begin_webui name type val) h = begin_webui-IsPacked j name type val h
do_call-IsPacked j (call_begin_webui_range name type val smallest largest) h =
    let item = begin_webui-IsPacked j name type val h in
    member-IsPacked _ (member-IsPacked _ item (b'S' ∷ []) largest) (b'M' ∷ []) smallest

-- Whatever calls follow one another on an encoder with a channel and a tag, every line that it sends
-- has at most 100 characters, and fewer than 100 are unsent.
pub do_calls-IsPacked : (j : Encoder) (cs : List Call) → IsPacked j → IsPacked (do_calls j cs)
unfolding do_calls
do_calls-IsPacked j [] h = h
do_calls-IsPacked j (c ∷ cs) h = do_calls-IsPacked (do_call j c) cs (do_call-IsPacked j c h)
