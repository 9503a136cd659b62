-- ===== src/Flow/Repeat.antt =====
-- REPEAT and ENDREPEAT: how often the body of a counted loop runs.
use fluid_edm.Base.{
  ℕ, zero, suc, ◌-◌, ◌≡◌, refl, true, false, some, List, [], ◌∷◌, ◌++◌, ◌==◌, arith, length,
  replicate, if◌then◌else◌,
}
use fluid_edm.Base.Float.{Float}
use fluid_edm.Flow.{
  op_repeat, Entry, Flow, Outcome, undefined, returns, is_zero, read_command, letters, top_skip,
  is_live, is_active, with_context,
}
use fluid_edm.Flow.Words.{unchanged, put_at, rewind, turn_again, endrepeat_on, settle}
use fluid_edm.Flow.Step.{repeat_count, do_repeat, execute, flowcontrol}
use fluid_edm.Flow.Chain.{answer, same_refl}

-- "REPEAT" and "ENDREPEAT"
abbrev repeat_line : List ℕ
repeat_line = b'R' ∷ b'E' ∷ b'P' ∷ b'E' ∷ b'A' ∷ b'T' ∷ []

abbrev endrepeat_line : List ℕ
endrepeat_line = b'E' ∷ b'N' ∷ b'D' ∷ b'R' ∷ b'E' ∷ b'P' ∷ b'E' ∷ b'A' ∷ b'T' ∷ []

-- a position and a line number of a source
abbrev pub Place : Type 0
Place = ℕ × ℕ

abbrev pub place : Flow → ℕ → Place
place w f = (w.position f, w.line_number f)

-- the source is read up to a place
abbrev read_to : Flow → ℕ → Place → Flow
read_to w f p = record w {
  position = put_at w.position f p.0;
  line_number = put_at w.line_number f p.1;
}

-- where the source stands after each ENDREPEAT, and the stack in the end
abbrev pub Turns : Type 0
Turns = List Place × List Entry

abbrev then_turn : ℕ → (Flow → Turns) → Outcome → Turns
then_turn f go_on undefined = ([], [])
then_turn f go_on (returns status w) =
    let (places, stack) = go_on w in
    if status == 0 then (place w f ∷ places, stack) else ([], w.context)

pub live-active : (g : ℕ) (js : List ℕ) → is_live g js ≡ true → is_active js ≡ true
live-active g [] h = cc
live-active g (j ∷ js) h = refl

put_at_self : (value : ℕ → ℕ) (f n : ℕ) → put_at value f n f ≡ n
put_at_self value f n = rw (same_refl f) refl

module _ (t : Entry) (rest : List Entry) (w : Flow) where
  turn_last : (r : ℕ) → r - 1 ≡ 0 → turn_again r t rest w ≡ unchanged (with_context w rest)
  unfolding turn_again
  turn_last zero h = refl
  turn_last (suc zero) h = refl
  turn_last (suc (suc n)) h = absurd (omega (arith, h))

  turn_more :
      (r n : ℕ)
      → r - 1 ≡ suc n
      → turn_again r t rest w ≡ rewind true t (with_context w (record t { repeats = suc n } ∷ rest))
  unfolding turn_again
  turn_more zero n h = absurd (omega (arith, h))
  turn_more (suc zero) n h = absurd (omega (arith, h))
  turn_more (suc (suc m)) n h = rw (the_same h) refl
    where
      the_same : suc (suc m) - 1 ≡ suc n → m ≡ n
      the_same e = omega (arith, e)

  rewind_live :
      (g : ℕ)
      → t.file ≡ some g
      → is_live g w.jobs ≡ true
      → rewind true t w
        ≡ unchanged (record w {
          position = put_at w.position g t.file_pos;
          line_number = put_at w.line_number g t.line_number;
        })
  unfolding rewind
  rewind_live g k a = rw (k, a) refl

  endrepeat_turns :
      (l : ℕ)
      → t.operation ≡ op_repeat
      → (l == t.o_label) ≡ true
      → endrepeat_on l (t ∷ rest) w ≡ turn_again t.repeats t rest w
  unfolding endrepeat_on
  endrepeat_turns l o e = rw (o, e) refl

module _ {F : Type 0} ⦃f : Float F⦄ where
  -- ENDREPEAT met at each of the given places in turn
  unfoldable pub run_turns : F → ℕ → ℕ → List Place → Flow → Turns
  run_turns v l g [] w = ([], w.context)
  run_turns v l g (p ∷ ps) w =
      then_turn g (λ u. run_turns v l g ps u)
        (flowcontrol (answer v) l endrepeat_line (read_to w g p))

  abbrev pub then_turns : F → ℕ → ℕ → List Place → Outcome → Turns
  then_turns v l g ps undefined = ([], [])
  then_turns v l g ps (returns status w) = run_turns v l g ps w

  -- REPEAT with the value `v`, then ENDREPEAT at each of the places
  unfoldable pub run_repeat : F → ℕ → ℕ → List Place → Flow → Turns
  run_repeat v l g ps w = then_turns v l g ps (flowcontrol (answer v) l repeat_line w)

  turns_count :
      (v : F) (l g : ℕ) (ps : List Place) (p : Place) (w : Flow) (t : Entry) (rest : List Entry)
      → t.operation ≡ op_repeat
      → (l == t.o_label) ≡ true
      → t.file ≡ some g
      → t.repeats - 1 ≡ length ps
      → is_live g w.jobs ≡ true
      → run_turns v l g (ps ++ (p ∷ [])) (with_context w (t ∷ rest))
        ≡ (replicate (length ps) (t.file_pos, t.line_number) ++ (p ∷ []), rest)
  unfolding run_turns flowcontrol execute settle read_command letters
  turns_count v l g [] p w t rest o e k n a =
      let u = read_to (with_context w (t ∷ rest)) g p in
      rw
        (
          live-active g w.jobs a,
          endrepeat_turns t rest u l o e,
          turn_last t rest u t.repeats n,
          put_at_self w.position g p.0,
          put_at_self w.line_number g p.1,
        )
        refl
  turns_count v l g (q ∷ ps) p w t rest o e k n a =
      let u = read_to (with_context w (t ∷ rest)) g q in
      let t' = record t { repeats = suc (length ps) } in
      let u' = with_context u (t' ∷ rest) in
      let back = record (read_to u' g (t.file_pos, t.line_number)) { skip_blocks = t.skip } in
      rw
        (
          live-active g w.jobs a,
          endrepeat_turns t rest u l o e,
          turn_more t rest u t.repeats (length ps) n,
          rewind_live t rest u' g k a,
          put_at_self u.position g t.file_pos,
          put_at_self u.line_number g t.line_number,
          turns_count v l g ps p back t' rest o e k (omega arith) a,
        )
        refl

  abbrev counted : F → ℕ → ℕ → Flow → Entry
  counted v l g w = record {
    o_label = l;
    operation = op_repeat;
    file = some g;
    file_pos = w.position g;
    line_number = w.line_number g;
    expr = [];
    repeats = repeat_count v;
    skip = false;
    handled = false;
    brk = false;
  }

  repeat_opens :
      (v : F) (l g : ℕ) (js : List ℕ) (w : Flow)
      → top_skip w.context ≡ false
      → is_zero v ≡ false
      → do_repeat (answer v []) l (record w { jobs = g ∷ js })
        ≡ unchanged (record w { jobs = g ∷ js; context = counted v l g w ∷ w.context })
  unfolding do_repeat
  repeat_opens v l g js w k z = rw (k, z) refl

  -- When a job runs and no block is skipped, REPEAT with a nonzero value whose uint32_t is `n` runs its
  -- body `n` times, and once when `n` is 0: at each ENDREPEAT but the last the source is set back to
  -- the place that REPEAT recorded, at the last it stays where it is, and the stack is then as before.
  pub run_repeat_lem :
      (v : F) (l g : ℕ) (ps : List Place) (p : Place) (w : Flow) (js : List ℕ)
      → w.jobs ≡ g ∷ js
      → top_skip w.context ≡ false
      → is_zero v ≡ false
      → repeat_count v - 1 ≡ length ps
      → run_repeat v l g (ps ++ (p ∷ [])) w
        ≡ (replicate (length ps) (place w g) ++ (p ∷ []), w.context)
  unfolding run_repeat flowcontrol execute settle read_command letters do_repeat
  run_repeat_lem v l g ps p w js j k z n =
      let u = record w { skip_blocks = false } in
      let live : is_live g w.jobs ≡ true = rw (j, same_refl g) refl in
      let opened : do_repeat (answer v []) l w
          ≡ unchanged (with_context w (counted v l g w ∷ w.context)) =
        rw j (repeat_opens v l g js w k z) in
      rw
        (
          run_repeat,
          opened,
          turns_count v l g ps p u (counted v l g w) w.context refl (same_refl l) refl n live,
        )
        refl
