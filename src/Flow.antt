-- ===== src/Flow.antt =====
-- Flowcontrol.cpp and Job.h: the stack of O-word blocks of a running G-code job. A `JobSource*` is a
-- number, the job stack the list of the live ones, the innermost first; the position and the line
-- number of a source are those of its channel. What `expression` answers is an argument of each word.
pub mod Words
pub mod Step
pub mod Chain
pub mod Repeat
pub mod Sound
pub mod Defined
pub mod Jumps
pub mod Jobs
pub mod Blocks
use fluid_edm.Base.{
  ℕ, zero, suc, Bool, true, false, Option, none, some, List, [], ◌∷◌, leb, ◌==◌, ◌&&◌, ◌||◌, not,
  if◌then◌else◌,
}
use fluid_edm.Base.Float.{Float, nought}

-- `ngc_cmd_t`
pub data Command : Type 0 where
  op_no_op op_if op_elseif op_else op_endif op_do op_continue op_break op_while : Command
  op_endwhile op_repeat op_endrepeat op_return op_raise_alarm op_raise_error : Command

abbrev pub is_if : Command → Bool
is_if op_if = true
is_if op_elseif = true
is_if _ = false

abbrev pub is_branch : Command → Bool
is_branch op_if = true
is_branch op_elseif = true
is_branch op_else = true
is_branch _ = false

abbrev pub is_do : Command → Bool
is_do op_do = true
is_do _ = false

abbrev pub is_while : Command → Bool
is_while op_while = true
is_while _ = false

abbrev pub is_repeat : Command → Bool
is_repeat op_repeat = true
is_repeat _ = false

abbrev pub is_loop : Command → Bool
is_loop op_do = true
is_loop op_while = true
is_loop op_repeat = true
is_loop _ = false

-- `ngc_stack_entry_t`; a null file is `none`
pub record Entry : Type 0 where
  pub o_label : ℕ
  pub operation : Command
  pub file : Option ℕ
  pub file_pos : ℕ
  pub line_number : ℕ
  pub expr : List ℕ
  pub repeats : ℕ
  pub skip : Bool
  pub handled : Bool
  pub brk : Bool

-- the context, the top entry first, the job stack, where its sources stand, the alarms sent, and
-- `gc_state.skip_blocks`, which the parser passes as `skip`
pub record Flow : Type 0 where
  pub context : List Entry
  pub jobs : List ℕ
  pub position : ℕ → ℕ
  pub line_number : ℕ → ℕ
  pub alarms : List ℕ
  pub skip_blocks : Bool

-- A call returns an error code, or it reads the top of an empty stack or a deleted source.
pub data Outcome : Type 0 where
  undefined : Outcome
  returns : ℕ → Flow → Outcome

-- what `expression` returns and the value it stores
pub record Evaluation (F : Type 0) : Type 0 where
  pub status : ℕ
  pub value : F

abbrev pub error_ok : ℕ
error_ok = 0

abbrev pub flow_control_syntax_error : ℕ
flow_control_syntax_error = 176

abbrev pub flow_control_not_executing_macro : ℕ
flow_control_not_executing_macro = 177

module _ {F : Type 0} ⦃f : Float F⦄ where
  -- `value == 0`, false for NaN
  abbrev pub is_zero : F → Bool
  is_zero v = f.le v nought && f.le nought v

abbrev is_alpha : ℕ → Bool
is_alpha c = (leb 65 c && leb c 90) || (leb 97 c && leb c 122)

-- the letters of a text and what follows them
unfoldable pub letters : List ℕ → List ℕ × List ℕ
letters [] = ([], [])
letters (c ∷ cs) =
    let (key, rest) = letters cs in if is_alpha c then (c ∷ key, rest) else ([], c ∷ cs)

abbrev pub same_text : List ℕ → List ℕ → Bool
same_text [] [] = true
same_text (x ∷ xs) (y ∷ ys) = x == y && same_text xs ys
same_text _ _ = false

-- `commands`
abbrev pub commands : List (List ℕ × Command)
commands =
    (b'I' ∷ b'F' ∷ [], op_if)
    ∷ (b'E' ∷ b'L' ∷ b'S' ∷ b'E' ∷ b'I' ∷ b'F' ∷ [], op_elseif)
    ∷ (b'E' ∷ b'L' ∷ b'S' ∷ b'E' ∷ [], op_else)
    ∷ (b'E' ∷ b'N' ∷ b'D' ∷ b'I' ∷ b'F' ∷ [], op_endif)
    ∷ (b'D' ∷ b'O' ∷ [], op_do)
    ∷ (b'C' ∷ b'O' ∷ b'N' ∷ b'T' ∷ b'I' ∷ b'N' ∷ b'U' ∷ b'E' ∷ [], op_continue)
    ∷ (b'B' ∷ b'R' ∷ b'E' ∷ b'A' ∷ b'K' ∷ [], op_break)
    ∷ (b'W' ∷ b'H' ∷ b'I' ∷ b'L' ∷ b'E' ∷ [], op_while)
    ∷ (b'E' ∷ b'N' ∷ b'D' ∷ b'W' ∷ b'H' ∷ b'I' ∷ b'L' ∷ b'E' ∷ [], op_endwhile)
    ∷ (b'R' ∷ b'E' ∷ b'P' ∷ b'E' ∷ b'A' ∷ b'T' ∷ [], op_repeat)
    ∷ (b'E' ∷ b'N' ∷ b'D' ∷ b'R' ∷ b'E' ∷ b'P' ∷ b'E' ∷ b'A' ∷ b'T' ∷ [], op_endrepeat)
    ∷ (b'R' ∷ b'E' ∷ b'T' ∷ b'U' ∷ b'R' ∷ b'N' ∷ [], op_return)
    ∷ (b'A' ∷ b'L' ∷ b'A' ∷ b'R' ∷ b'M' ∷ [], op_raise_alarm)
    ∷ (b'E' ∷ b'R' ∷ b'R' ∷ b'O' ∷ b'R' ∷ [], op_raise_error)
    ∷ []

abbrev pub find_command : List (List ℕ × Command) → List ℕ → Option Command
find_command [] key = none
find_command ((name, c) ∷ rest) key = if same_text name key then some c else find_command rest key

unfoldable pub read_command : List ℕ → Option (Command × List ℕ)
read_command line =
    let (key, rest) = letters line in
    elim (find_command commands key) [ none ↦ none | some c ↦ some (c, rest) ]

abbrev pub top_skip : List Entry → Bool
top_skip [] = false
top_skip (t ∷ rest) = t.skip

-- `last_op`
abbrev pub top_operation : List Entry → Command
top_operation [] = op_no_op
top_operation (t ∷ rest) = t.operation

-- Job::active and Job::source
abbrev pub is_active : List ℕ → Bool
is_active [] = false
is_active (f ∷ fs) = true

abbrev pub source : List ℕ → Option ℕ
source [] = none
source (f ∷ fs) = some f

abbrev pub is_live : ℕ → List ℕ → Bool
is_live f [] = false
is_live f (g ∷ fs) = f == g || is_live f fs

-- the position or the line number of the current source
abbrev pub at_source : List ℕ → (ℕ → ℕ) → ℕ
at_source [] value = 0
at_source (f ∷ fs) value = value f

-- the entry of `stack_push`
abbrev pub new_entry : Flow → ℕ → Command → Bool → Entry
new_entry w l c skip = record {
  o_label = l;
  operation = c;
  file = source w.jobs;
  file_pos = 0;
  line_number = 0;
  expr = [];
  repeats = 0;
  skip = skip;
  handled = false;
  brk = false;
}

-- the same entry with the place of the current source
abbrev pub here : Flow → Entry → Entry
here w t = record t {
  file_pos = at_source w.jobs w.position;
  line_number = at_source w.jobs w.line_number;
}

abbrev pub with_context : Flow → List Entry → Flow
with_context w ts = record w { context = ts }
