-- ===== src/Tests/Flow.antt =====
-- O-words on concrete jobs; `float` runs in whole millionths, and a condition is its value.
use fluid_edm.Base.{ℕ, ◌≡◌, ◌↔◌, ◌⊎◌, refl, true, false, none, some, List, [], ◌∷◌}
use fluid_edm.Base.Int.{pos}
use fluid_edm.Base.Fixed.{micros}
use fluid_edm.Flow.{op_if, op_do, op_break, Entry, Flow, undefined, returns, read_command, letters}
use fluid_edm.Flow.Step.{flowcontrol}
use fluid_edm.Flow.Blocks.{flowcontrol_skipped}
use fluid_edm.Flow.Chain.{answer, all_but, first_true, run_chain, run_chain_lem}
use fluid_edm.Flow.Repeat.{run_repeat, run_repeat_lem}
use fluid_edm.Flow.Sound.{IsDefined, labelled}
use fluid_edm.Flow.Defined.{flowcontrol-IsDefined}
use fluid_edm.Flow.Jobs.{next_job, next_job_stale}
use fluid_edm.Flow.Jumps.{while_line, endwhile_line, break_undefined_iff, while_inside_do}

-- a job in source 4, at position 70 and line 9, inside a loop that began at position 30 and line 5
abbrev do_entry : Entry
do_entry = record {
  o_label = 100;
  operation = op_do;
  file = some 4;
  file_pos = 30;
  line_number = 5;
  expr = [];
  repeats = 0;
  skip = false;
  handled = false;
  brk = false;
}

abbrev skipped_entry : Entry
skipped_entry = record do_entry { operation = op_if; file = none; skip = true }

abbrev in_stack : List Entry → Flow
in_stack ts = record {
  context = ts;
  jobs = 4 ∷ [];
  position = λ _. 70;
  line_number = λ _. 9;
  alarms = [];
  skip_blocks = false;
}

abbrev in_loop : Flow
in_loop = in_stack (do_entry ∷ [])

-- "BREAK" and "REPEAT"
abbrev break_line : List ℕ
break_line = b'B' ∷ b'R' ∷ b'E' ∷ b'A' ∷ b'K' ∷ []

abbrev repeat_text : List ℕ
repeat_text = b'R' ∷ b'E' ∷ b'P' ∷ b'E' ∷ b'A' ∷ b'T' ∷ []

read-break : read_command break_line ≡ some (op_break, [])
unfolding read_command letters
read-break = refl

flowcontrol_skipped_example :
    (flowcontrol (answer (pos 3000000)) 101 repeat_text (in_stack (skipped_entry ∷ []))
      ≡ returns 0 (record (in_stack (skipped_entry ∷ [])) { skip_blocks = true }))
    ⊎ ((read_command repeat_text ≡ none)
        × (flowcontrol (answer (pos 3000000)) 101 repeat_text (in_stack (skipped_entry ∷ []))
            ≡ returns 176 (in_stack (skipped_entry ∷ []))))
flowcontrol_skipped_example =
    flowcontrol_skipped (answer (pos 3000000)) 101 repeat_text (in_stack (skipped_entry ∷ []))
      skipped_entry [] refl refl refl refl

run_chain_lem_example :
    run_chain 101 (pos 0) (pos 1000000 ∷ pos 1000000 ∷ []) in_loop
    ≡ (true ∷ false ∷ true ∷ true ∷ [], do_entry ∷ [])
unfolding all_but first_true
run_chain_lem_example = run_chain_lem 101 (pos 0) (pos 1000000 ∷ pos 1000000 ∷ []) in_loop refl

run_repeat_lem_example :
    run_repeat (pos 3000000) 101 4 ((80, 12) ∷ (80, 12) ∷ (80, 12) ∷ []) in_loop
    ≡ ((70, 9) ∷ (70, 9) ∷ (80, 12) ∷ [], do_entry ∷ [])
run_repeat_lem_example =
    run_repeat_lem (pos 3000000) 101 4 ((80, 12) ∷ (80, 12) ∷ []) (80, 12) in_loop [] refl refl refl
      refl

flowcontrol-IsDefined_example :
    IsDefined (flowcontrol (answer (pos 1000000)) 100 break_line in_loop)
flowcontrol-IsDefined_example =
    flowcontrol-IsDefined (answer (pos 1000000)) 100 break_line in_loop (λ _. refl, tt)
      (λ c text k j. refl)

break_undefined_iff_example :
    (flowcontrol (answer (pos 0)) 7 break_line in_loop ≡ undefined)
    ↔ (labelled 7 in_loop.context ≡ false)
break_undefined_iff_example =
    break_undefined_iff (answer (pos 0)) 7 break_line [] in_loop read-break refl refl

while_inside_do_example :
    (flowcontrol (answer (pos 1000000)) 101 while_line in_loop ≡ returns 0 in_loop)
    × (flowcontrol (answer (pos 1000000)) 101 endwhile_line in_loop ≡ returns 176 (in_stack []))
while_inside_do_example =
    while_inside_do (pos 1000000) 101 in_loop do_entry [] refl refl refl refl refl refl

next_job_stale_example :
    flowcontrol (answer (pos 1000000)) 100 while_line (next_job in_loop none 5 none) ≡ undefined
next_job_stale_example =
    next_job_stale (pos 1000000) in_loop do_entry [] 4 5 [] none none refl refl refl refl refl refl
      refl refl refl
