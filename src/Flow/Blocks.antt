-- ===== src/Flow/Blocks.antt =====
-- What a skipped block keeps.
use fluid_edm.Base.{
  ℕ, ◌≡◌, ◌≢◌, ◌⊎◌, inl, inr, refl, true, false, Option, none, some, List, [], ◌∷◌, ◌==◌, arith,
  All, ap, ◌∙◌, if-elim, Option-cases,
}
use fluid_edm.Base.Float.{Float}
use mathlib.Core.Option.{some-injective}
use fluid_edm.Flow.{
  Command, op_no_op, op_if, op_elseif, op_else, op_endif, op_do, op_continue, op_break, op_while,
  op_endwhile, op_repeat, op_endrepeat, op_return, op_raise_alarm, op_raise_error, Entry, Flow,
  returns, Evaluation, read_command, is_active, find_command, same_text, commands, letters,
  flow_control_syntax_error,
}
use fluid_edm.Flow.Words.{unchanged, do_else, do_endif, do_do, endrepeat_on, do_break, settle}
use fluid_edm.Flow.Step.{
  do_if, do_elseif, while_on, do_while, endwhile_on, do_endwhile, do_repeat, do_continue, do_alarm,
  do_error, execute, flowcontrol,
}

abbrev the_command : Option (Command × List ℕ) → Option Command
the_command none = none
the_command (some (c, text)) = some c

abbrev IsNamed : List ℕ × Command → Type 0
IsNamed e = e.1 ≢ op_no_op

find_command-named :
    (table : List (List ℕ × Command)) (key : List ℕ) (c : Command)
    → All IsNamed table
    → find_command table key ≡ some c
    → c ≢ op_no_op
find_command-named [] key c _ e = cc
find_command-named ((name, d) ∷ rest) key c (n, ns) e =
    if-elim (λ r. r ≡ some c → c ≢ op_no_op) (same_text name key)
      (λ _ found q. n (some-injective _ _ found ∙ q))
      (λ _ other. find_command-named rest key c ns other) e

commands-IsNamed : All IsNamed commands
commands-IsNamed = ground arith

read_command-named :
    (line : List ℕ) (c : Command) (text : List ℕ)
    → read_command line ≡ some (c, text)
    → c ≢ op_no_op
unfolding read_command
read_command-named line c text e = elim (Option-cases (find_command commands (letters line).0)) [
  | inl unknown ↦ cc
  | inr (d, known) ↦
      find_command-named commands (letters line).0 c commands-IsNamed
        (known ∙ ap the_command (rw (read_command, known) at e))
]

module _ {F : Type 0} ⦃f : Float F⦄ where
  execute_skipped :
      (expression : List ℕ → Evaluation F) (c : Command) (l : ℕ) (text : List ℕ) (w : Flow)
      (t : Entry) (rest : List Entry)
      → w.context ≡ t ∷ rest
      → t.skip ≡ true
      → (l == t.o_label) ≡ false
      → is_active w.jobs ≡ true
      → c ≢ op_no_op
      → execute expression c l text w ≡ unchanged w
  unfolding execute do_if do_elseif do_else do_endif do_do while_on do_while endwhile_on do_endwhile
      do_repeat endrepeat_on do_break do_continue do_alarm do_error
  execute_skipped expression op_if l text w t rest k s d a n = rw (k, s) refl
  execute_skipped expression op_elseif l text w t rest k s d a n = ground (arith, k, s, d)
  execute_skipped expression op_else l text w t rest k s d a n = ground (arith, k, s, d)
  execute_skipped expression op_endif l text w t rest k s d a n = ground (arith, k, s, d)
  execute_skipped expression op_do l text w t rest k s d a n = rw (k, s, a) refl
  execute_skipped expression op_while l text w t rest k s d a n = ground (arith, k, s, d, a)
  execute_skipped expression op_endwhile l text w t rest k s d a n = ground (arith, k, s, d, a)
  execute_skipped expression op_repeat l text w t rest k s d a n = rw (k, s, a) refl
  execute_skipped expression op_endrepeat l text w t rest k s d a n = ground (arith, k, s, d, a)
  execute_skipped expression op_break l text w t rest k s d a n = rw (k, s, a) refl
  execute_skipped expression op_continue l text w t rest k s d a n = rw (k, s, a) refl
  execute_skipped expression op_raise_alarm l text w t rest k s d a n = rw (k, s) refl
  execute_skipped expression op_raise_error l text w t rest k s d a n = rw (k, s) refl
  execute_skipped expression op_return l text w t rest k s d a n = rw a refl
  execute_skipped expression op_no_op l text w t rest k s d a n = absurd (n refl)

  -- While a block is skipped and a job runs, a line with another label than the block's leaves the
  -- stack, the sources and the alarms as they are, whatever its word: it answers Ok, or its word is
  -- unknown and it is refused.
  pub flowcontrol_skipped :
      (expression : List ℕ → Evaluation F) (l : ℕ) (line : List ℕ) (w : Flow) (t : Entry)
      (rest : List Entry)
      → w.context ≡ t ∷ rest
      → t.skip ≡ true
      → (l == t.o_label) ≡ false
      → is_active w.jobs ≡ true
      → (flowcontrol expression l line w ≡ returns 0 (record w { skip_blocks = true }))
        ⊎ ((read_command line ≡ none)
            × (flowcontrol expression l line w ≡ returns flow_control_syntax_error w))
  unfolding flowcontrol settle
  flowcontrol_skipped expression l line w t rest k s d a = elim (Option-cases (read_command line)) [
    | inl unknown ↦ inr (unknown, rw (flowcontrol, unknown) refl)
    | inr ((c, text), known) ↦
        let keeps : execute expression c l text w ≡ unchanged w =
          execute_skipped expression c l text w t rest k s d a
            (read_command-named line c text known) in
        inl (rw (flowcontrol, known, keeps, k, s) refl)
  ]
