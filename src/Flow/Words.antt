-- ===== src/Flow/Words.antt =====
-- Flowcontrol.cpp: the O-words that evaluate no expression, and what they share with the others.
use fluid_edm.Base.{
  ℕ, suc, Bool, true, false, Option, none, some, List, [], ◌∷◌, ◌==◌, if◌then◌else◌,
}
use fluid_edm.Flow.{
  op_else, op_do, is_if, is_branch, is_repeat, is_loop, Entry, Flow, Outcome, undefined, returns,
  error_ok, flow_control_syntax_error, flow_control_not_executing_macro, top_skip, is_active,
  is_live, new_entry, here, with_context,
}

abbrev pub unchanged : Flow → Outcome
unchanged w = returns error_ok w

abbrev pub refused : Flow → Outcome
refused w = returns flow_control_syntax_error w

-- a word out of place is refused unless its block is skipped
abbrev pub misplaced : Flow → Outcome
misplaced w = if top_skip w.context then unchanged w else refused w

-- a word that needs a running job
abbrev pub in_job : Flow → Outcome → Outcome
in_job w r = if is_active w.jobs then r else returns flow_control_not_executing_macro w

abbrev pub put_at : (ℕ → ℕ) → ℕ → ℕ → ℕ → ℕ
put_at value f n g = if g == f then n else value g

-- set_position and, with `lines`, setLineNumber on the file of an entry
unfoldable pub rewind : Bool → Entry → Flow → Outcome
rewind lines t w = elim t.file [
  | none ↦ undefined
  | some f ↦
      if is_live f w.jobs
      then unchanged (record w {
        position = put_at w.position f t.file_pos;
        line_number = if lines then put_at w.line_number f t.line_number else w.line_number;
      })
      else undefined
]

-- `repeats && --repeats`
unfoldable pub turn_again : ℕ → Entry → List Entry → Flow → Outcome
turn_again (suc (suc n)) t rest w =
    rewind true t (with_context w (record t { repeats = suc n } ∷ rest))
turn_again _ t rest w = unchanged (with_context w rest)

-- the loop of BREAK and CONTINUE; it reads the top of the stack after the last entry is gone
unfoldable pub pull_to : ℕ → List Entry → Option (List Entry)
pull_to l [] = none
pull_to l (t ∷ rest) =
    let below = pull_to l rest in if l == t.o_label then some (t ∷ rest) else below

unfoldable pub do_else : ℕ → List Entry → Flow → Outcome
do_else l [] w = refused w
do_else l (t ∷ rest) w =
    if is_if t.operation
    then if l == t.o_label
      then unchanged (
          with_context w (
            (if t.handled
              then record t { skip = true }
              else record t { skip = false; operation = op_else })
            ∷ rest))
      else unchanged w
    else misplaced w

unfoldable pub do_endif : ℕ → List Entry → Flow → Outcome
do_endif l [] w = refused w
do_endif l (t ∷ rest) w =
    if is_branch t.operation
    then if l == t.o_label then unchanged (with_context w rest) else unchanged w
    else misplaced w

unfoldable pub do_do : ℕ → Flow → Outcome
do_do l w = in_job w (
    if top_skip w.context
    then unchanged w
    else unchanged (with_context w (here w (new_entry w l op_do false) ∷ w.context)))

unfoldable pub endrepeat_on : ℕ → List Entry → Flow → Outcome
endrepeat_on l [] w = refused w
endrepeat_on l (t ∷ rest) w =
    if is_repeat t.operation
    then if l == t.o_label then turn_again t.repeats t rest w else unchanged w
    else misplaced w

-- BREAK, with the stack that its loop leaves
unfoldable pub break_at : ℕ → Option (List Entry) → Flow → Outcome
break_at l none w = undefined
break_at l (some []) w = refused (with_context w [])
break_at l (some (t ∷ rest)) w =
    let broken = record t { repeats = 0; brk = true; skip = true; handled = true } in
    if is_loop t.operation
    then if l == t.o_label
      then unchanged (with_context w (broken ∷ rest))
      else unchanged (with_context w (t ∷ rest))
    else refused (with_context w (t ∷ rest))

unfoldable pub do_break : ℕ → Flow → Outcome
do_break l w =
    in_job w (if top_skip w.context then unchanged w else break_at l (pull_to l w.context) w)

-- the end of `flowcontrol`: an error clears the stack
unfoldable pub settle : Outcome → Outcome
settle undefined = undefined
settle (returns status w) = returns status (
    if status == 0
    then record w { skip_blocks = top_skip w.context }
    else record w { context = []; skip_blocks = false })
