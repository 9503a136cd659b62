-- ===== src/Flow/Step.antt =====
-- Flowcontrol.cpp: the O-words that evaluate an expression, and `flowcontrol`, which reads a word and
-- does it.
use fluid_edm.Base.{
  ℕ, ◌%◌, ◌^◌, Bool, true, false, Option, none, some, List, [], ◌∷◌, ◌++◌, ◌==◌, ◌&&◌, not,
  if◌then◌else◌,
}
use fluid_edm.Base.Int.{pattern32}
use fluid_edm.Base.Float.{Float}
use fluid_edm.Flow.{
  Command, op_no_op, op_if, op_elseif, op_else, op_endif, op_do, op_continue, op_break, op_while,
  op_endwhile, op_repeat, op_endrepeat, op_return, op_raise_alarm, op_raise_error, is_if, is_do,
  is_while, Entry, Flow, Outcome, undefined, returns, Evaluation, is_zero, read_command, top_skip,
  new_entry, here, with_context,
}
use fluid_edm.Flow.Words.{
  unchanged, refused, misplaced, in_job, rewind, turn_again, pull_to, do_else, do_endif, do_do,
  endrepeat_on, do_break, settle,
}

module _ {F : Type 0} ⦃f : Float F⦄ where
  unfoldable pub do_if : Evaluation F → ℕ → Flow → Outcome
  do_if e l w =
      let entry = record (new_entry w l op_if (is_zero e.value)) {
        handled = not (is_zero e.value);
      } in
      if top_skip w.context
      then unchanged w
      else if e.status == 0
      then unchanged (with_context w (entry ∷ w.context))
      else returns e.status w

  -- ELSEIF of the block on top, no branch of which has run yet
  unfoldable pub try_branch : Evaluation F → Entry → List Entry → Flow → Outcome
  try_branch e t rest w =
      let taken = record t { operation = op_elseif; skip = false; handled = true } in
      if e.status == 0
      then unchanged
          (with_context w ((if is_zero e.value then record t { skip = true } else taken) ∷ rest))
      else returns e.status (with_context w (record t { skip = false } ∷ rest))

  unfoldable pub do_elseif : Evaluation F → ℕ → List Entry → Flow → Outcome
  do_elseif e l [] w = refused w
  do_elseif e l (t ∷ rest) w =
      if is_if t.operation
      then if l == t.o_label
        then if t.handled
          then unchanged (with_context w (record t { skip = true } ∷ rest))
          else try_branch e t rest w
        else unchanged w
      else misplaced w

  -- WHILE as the head of a loop of its own
  abbrev pub open_while : Evaluation F → ℕ → List ℕ → Flow → Outcome
  open_while e l text w =
      let entry = record (new_entry w l op_while (is_zero e.value)) { expr = text } in
      unchanged (with_context w ((if is_zero e.value then entry else here w entry) ∷ w.context))

  -- WHILE at the end of the DO loop on top
  unfoldable pub end_do : Evaluation F → ℕ → Entry → List Entry → Flow → Outcome
  end_do e l t rest w =
      if l == t.o_label
      then if is_zero e.value then unchanged (with_context w rest) else rewind true t w
      else unchanged w

  unfoldable pub while_on : Evaluation F → ℕ → List ℕ → List Entry → Flow → Outcome
  while_on e l text [] w = if e.status == 0 then open_while e l text w else returns e.status w
  while_on e l text (t ∷ rest) w =
      if t.brk
      then if is_do t.operation && l == t.o_label
        then unchanged (with_context w rest)
        else unchanged w
      else if t.skip
      then unchanged w
      else if e.status == 0
      then if is_do t.operation then end_do e l t rest w else open_while e l text w
      else returns e.status w

  unfoldable pub do_while : Evaluation F → ℕ → List ℕ → Flow → Outcome
  do_while e l text w = in_job w (while_on e l text w.context w)

  -- the condition of a WHILE loop once more
  unfoldable pub while_again : Bool → Evaluation F → Entry → List Entry → Flow → Outcome
  while_again lines e t rest w =
      if t.skip
      then unchanged (with_context w rest)
      else if e.status == 0
      then if is_zero e.value then unchanged (with_context w rest) else rewind lines t w
      else returns e.status w

  unfoldable pub endwhile_on : (List ℕ → Evaluation F) → ℕ → List Entry → Flow → Outcome
  endwhile_on expression l [] w = refused w
  endwhile_on expression l (t ∷ rest) w =
      if is_while t.operation
      then if l == t.o_label then while_again false (expression t.expr) t rest w else unchanged w
      else misplaced w

  unfoldable pub do_endwhile : (List ℕ → Evaluation F) → ℕ → Flow → Outcome
  do_endwhile expression l w = in_job w (endwhile_on expression l w.context w)

  -- `(uint32_t)value`
  abbrev pub repeat_count : F → ℕ
  repeat_count v = pattern32 (f.trunc v)

  unfoldable pub do_repeat : Evaluation F → ℕ → Flow → Outcome
  do_repeat e l w =
      let entry = new_entry w l op_repeat (is_zero e.value) in
      let counted = record (here w entry) { repeats = repeat_count e.value } in
      in_job w (
        if top_skip w.context
        then unchanged w
        else if e.status == 0
        then unchanged (with_context w ((if is_zero e.value then entry else counted) ∷ w.context))
        else returns e.status w)

  unfoldable pub continue_loop :
      (List ℕ → Evaluation F) → Command → Entry → List Entry → Flow → Outcome
  continue_loop expression op_repeat t rest w = turn_again t.repeats t rest w
  continue_loop expression op_do t rest w = rewind true t w
  continue_loop expression op_while t rest w = while_again true (expression t.expr) t rest w
  continue_loop expression _ t rest w = refused w

  unfoldable pub continue_at : (List ℕ → Evaluation F) → ℕ → Option (List Entry) → Flow → Outcome
  continue_at expression l none w = undefined
  continue_at expression l (some []) w = refused (with_context w [])
  continue_at expression l (some (t ∷ rest)) w =
      if l == t.o_label
      then continue_loop expression t.operation t rest (with_context w (t ∷ rest))
      else refused (with_context w (t ∷ rest))

  unfoldable pub do_continue : (List ℕ → Evaluation F) → ℕ → Flow → Outcome
  do_continue expression l w =
      in_job w (
        if top_skip w.context
        then unchanged w
        else continue_at expression l (pull_to l w.context) w)

  -- `(ExecAlarm)value` and `(Error)value`, enumerations of type uint8_t
  abbrev pub code_of : F → ℕ
  code_of v = pattern32 (f.trunc v) % 2 ^ 8

  unfoldable pub do_alarm : Evaluation F → Flow → Outcome
  do_alarm e w =
      if not (top_skip w.context) && e.status == 0
      then unchanged (record w { alarms = w.alarms ++ (code_of e.value ∷ []) })
      else unchanged w

  unfoldable pub do_error : Evaluation F → Flow → Outcome
  do_error e w =
      if not (top_skip w.context) && e.status == 0 then returns (code_of e.value) w else unchanged w

  unfoldable pub execute : (List ℕ → Evaluation F) → Command → ℕ → List ℕ → Flow → Outcome
  execute expression op_if l text w = do_if (expression text) l w
  execute expression op_elseif l text w = do_elseif (expression text) l w.context w
  execute expression op_else l text w = do_else l w.context w
  execute expression op_endif l text w = do_endif l w.context w
  execute expression op_do l text w = do_do l w
  execute expression op_while l text w = do_while (expression text) l text w
  execute expression op_endwhile l text w = do_endwhile expression l w
  execute expression op_repeat l text w = do_repeat (expression text) l w
  execute expression op_endrepeat l text w = in_job w (endrepeat_on l w.context w)
  execute expression op_break l text w = do_break l w
  execute expression op_continue l text w = do_continue expression l w
  execute expression op_raise_alarm l text w = do_alarm (expression text) w
  execute expression op_raise_error l text w = do_error (expression text) w
  execute expression op_return l text w = in_job w (unchanged w)
  execute expression op_no_op l text w = refused w

  unfoldable pub flowcontrol : (List ℕ → Evaluation F) → ℕ → List ℕ → Flow → Outcome
  flowcontrol expression l line w = elim (read_command line) [
    | none ↦ refused w
    | some (c, text) ↦ settle (execute expression c l text w)
  ]
