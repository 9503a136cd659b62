-- ===== src/Flow/Defined.antt =====
-- Where a line of flow control is defined.
use fluid_edm.Base.{
  ℕ, ◌≡◌, refl, Bool, true, false, List, [], ◌∷◌, ◌==◌, ◌&&◌, not, All, if-elim, Option-cases, inl,
  inr,
}
use fluid_edm.Base.Float.{Float}
use fluid_edm.Flow.{
  Command, op_no_op, op_if, op_elseif, op_else, op_endif, op_do, op_continue, op_break, op_while,
  op_endwhile, op_repeat, op_endrepeat, op_return, op_raise_alarm, op_raise_error, is_loop, is_if,
  is_do, is_while, Entry, Flow, Outcome, undefined, returns, Evaluation, is_zero, read_command,
  top_skip, is_active, with_context,
}
use fluid_edm.Flow.Words.{settle}
use fluid_edm.Flow.Step.{
  do_if, try_branch, do_elseif, open_while, end_do, while_on, do_while, while_again, endwhile_on,
  do_endwhile, do_repeat, continue_loop, continue_at, do_continue, do_alarm, do_error, execute,
  flowcontrol,
}
use fluid_edm.Flow.Sound.{
  IsFile, IsHeld, IsSound, IsDefined, labelled, is_jump, Lands, source-IsFile, misplaced-IsDefined,
  in_job-IsDefined, rewind-IsDefined, do_do-IsDefined, turn_again-IsDefined, pull_to-labelled,
  do-loop, while-loop, do_else-IsDefined, do_endif-IsDefined, endrepeat_on-IsDefined,
  do_break-IsDefined,
}

module _ (w : Flow) (s : IsSound w) where
  module _ {F : Type 0} ⦃f : Float F⦄ where
    do_if-IsDefined : (e : Evaluation F) (l : ℕ) → IsDefined (do_if e l w)
    unfolding do_if
    do_if-IsDefined e l =
        if-elim IsDefined (top_skip w.context) (λ _. s)
          (λ _. if-elim IsDefined (e.status == 0) (λ _. (λ k. cc, s)) (λ _. s))

    do_elseif-IsDefined :
        (e : Evaluation F) (l : ℕ) (ts : List Entry)
        → All (IsHeld w.jobs) ts
        → IsDefined (do_elseif e l ts w)
    unfolding do_elseif try_branch
    do_elseif-IsDefined e l [] _ = s
    do_elseif-IsDefined e l (t ∷ rest) (h, hs) =
        if-elim IsDefined (is_if t.operation)
          (λ _.
            if-elim IsDefined (l == t.o_label)
              (λ _.
                if-elim IsDefined t.handled (λ _. (h, hs))
                  (λ _.
                    if-elim IsDefined (e.status == 0)
                      (λ _. (if-elim (IsHeld w.jobs) (is_zero e.value) (λ _. h) (λ _ k. cc), hs))
                      (λ _. (h, hs))))
              (λ _. s))
          (λ _. misplaced-IsDefined w s)

    open_while-IsDefined :
        (e : Evaluation F) (l : ℕ) (text : List ℕ)
        → is_active w.jobs ≡ true
        → IsDefined (open_while e l text w)
    open_while-IsDefined e l text a = (
      if-elim (IsHeld w.jobs) (is_zero e.value) (λ _ _. source-IsFile w.jobs a)
          (λ _ _. source-IsFile w.jobs a),
      s,
    )

    do_repeat-IsDefined : (e : Evaluation F) (l : ℕ) → IsDefined (do_repeat e l w)
    unfolding do_repeat
    do_repeat-IsDefined e l = in_job-IsDefined w s _ λ a.
        if-elim IsDefined (top_skip w.context) (λ _. s)
          (λ _.
            if-elim IsDefined (e.status == 0)
              (λ _. (
                if-elim (IsHeld w.jobs) (is_zero e.value) (λ _ _. source-IsFile w.jobs a)
                    (λ _ _. source-IsFile w.jobs a),
                s,
              ))
              (λ _. s))

    end_do-IsDefined :
        (e : Evaluation F) (l : ℕ) (t : Entry) (rest : List Entry)
        → IsFile w.jobs t.file
        → All (IsHeld w.jobs) rest
        → IsDefined (end_do e l t rest w)
    unfolding end_do
    end_do-IsDefined e l t rest k hs =
        if-elim IsDefined (l == t.o_label)
          (λ _. if-elim IsDefined (is_zero e.value) (λ _. hs) (λ _. rewind-IsDefined w s true t k))
          (λ _. s)

    while_on-IsDefined :
        (e : Evaluation F) (l : ℕ) (text : List ℕ) (ts : List Entry)
        → is_active w.jobs ≡ true
        → All (IsHeld w.jobs) ts
        → IsDefined (while_on e l text ts w)
    unfolding while_on
    while_on-IsDefined e l text [] a _ =
        if-elim IsDefined (e.status == 0) (λ _. open_while-IsDefined e l text a) (λ _. s)
    while_on-IsDefined e l text (t ∷ rest) a (h, hs) =
        if-elim IsDefined t.brk
          (λ _. if-elim IsDefined (is_do t.operation && l == t.o_label) (λ _. hs) (λ _. s))
          (λ _.
            if-elim IsDefined t.skip (λ _. s)
              (λ _.
                if-elim IsDefined (e.status == 0)
                  (λ _.
                    if-elim IsDefined (is_do t.operation)
                      (λ d. end_do-IsDefined e l t rest (h (do-loop t.operation d)) hs)
                      (λ _. open_while-IsDefined e l text a))
                  (λ _. s)))

    while_again-IsDefined :
        (lines : Bool) (e : Evaluation F) (t : Entry) (rest : List Entry)
        → IsFile w.jobs t.file
        → All (IsHeld w.jobs) rest
        → IsDefined (while_again lines e t rest w)
    unfolding while_again
    while_again-IsDefined lines e t rest k hs =
        if-elim IsDefined t.skip (λ _. hs)
          (λ _.
            if-elim IsDefined (e.status == 0)
              (λ _.
                if-elim IsDefined (is_zero e.value) (λ _. hs) (λ _. rewind-IsDefined w s lines t k))
              (λ _. s))

    endwhile_on-IsDefined :
        (expression : List ℕ → Evaluation F) (l : ℕ) (ts : List Entry)
        → All (IsHeld w.jobs) ts
        → IsDefined (endwhile_on expression l ts w)
    unfolding endwhile_on
    endwhile_on-IsDefined expression l [] _ = s
    endwhile_on-IsDefined expression l (t ∷ rest) (h, hs) =
        if-elim IsDefined (is_while t.operation)
          (λ k.
            if-elim IsDefined (l == t.o_label)
              (λ _.
                while_again-IsDefined false (expression t.expr) t rest
                  (h (while-loop t.operation k)) hs)
              (λ _. s))
          (λ _. misplaced-IsDefined w s)

    continue_loop-IsDefined :
        (expression : List ℕ → Evaluation F) (c : Command) (t : Entry) (rest : List Entry)
        → (is_loop c ≡ true → IsFile w.jobs t.file)
        → IsHeld w.jobs t
        → All (IsHeld w.jobs) rest
        → IsDefined (continue_loop expression c t rest w)
    unfolding continue_loop
    continue_loop-IsDefined expression op_repeat t rest k h hs =
        turn_again-IsDefined w t rest h hs t.repeats (k refl)
    continue_loop-IsDefined expression op_do t rest k h hs = rewind-IsDefined w s true t (k refl)
    continue_loop-IsDefined expression op_while t rest k h hs =
        while_again-IsDefined true (expression t.expr) t rest (k refl) hs
    continue_loop-IsDefined expression _ t rest k h hs = s

    do_alarm-IsDefined : (e : Evaluation F) → IsDefined (do_alarm e w)
    unfolding do_alarm
    do_alarm-IsDefined e =
        if-elim IsDefined (not (top_skip w.context) && e.status == 0) (λ _. s) (λ _. s)

    do_error-IsDefined : (e : Evaluation F) → IsDefined (do_error e w)
    unfolding do_error
    do_error-IsDefined e =
        if-elim IsDefined (not (top_skip w.context) && e.status == 0) (λ _. s) (λ _. s)

module _ (w : Flow) (s : IsSound w) where
  module _ {F : Type 0} ⦃f : Float F⦄ where
    do_continue-IsDefined :
        (expression : List ℕ → Evaluation F) (l : ℕ)
        → labelled l w.context ≡ true
        → IsDefined (do_continue expression l w)
    unfolding do_continue continue_at
    do_continue-IsDefined expression l k =
        let (t, rest, e, q, h, hs) = pull_to-labelled (IsHeld w.jobs) l w.context k s in
        in_job-IsDefined w s _ λ _.
          if-elim IsDefined (top_skip w.context) (λ _. s)
            (λ _.
              rw (e, q)
                (continue_loop-IsDefined (with_context w (t ∷ rest)) (h, hs) expression t.operation
                  t rest h h hs))

    execute-IsDefined :
        (expression : List ℕ → Evaluation F) (c : Command) (l : ℕ) (text : List ℕ)
        → (is_jump c ≡ true → labelled l w.context ≡ true)
        → IsDefined (execute expression c l text w)
    unfolding execute do_while do_endwhile
    execute-IsDefined expression op_if l text k = do_if-IsDefined w s (expression text) l
    execute-IsDefined expression op_elseif l text k =
        do_elseif-IsDefined w s (expression text) l w.context s
    execute-IsDefined expression op_else l text k = do_else-IsDefined w s l w.context s
    execute-IsDefined expression op_endif l text k = do_endif-IsDefined w s l w.context s
    execute-IsDefined expression op_do l text k = do_do-IsDefined w s l
    execute-IsDefined expression op_while l text k =
        in_job-IsDefined w s _ λ a. while_on-IsDefined w s (expression text) l text w.context a s
    execute-IsDefined expression op_endwhile l text k =
        in_job-IsDefined w s _ λ _. endwhile_on-IsDefined w s expression l w.context s
    execute-IsDefined expression op_repeat l text k = do_repeat-IsDefined w s (expression text) l
    execute-IsDefined expression op_endrepeat l text k =
        in_job-IsDefined w s _ λ _. endrepeat_on-IsDefined w s l w.context s
    execute-IsDefined expression op_break l text k = do_break-IsDefined w s l (k refl)
    execute-IsDefined expression op_continue l text k = do_continue-IsDefined expression l (k refl)
    execute-IsDefined expression op_raise_alarm l text k = do_alarm-IsDefined w s (expression text)
    execute-IsDefined expression op_raise_error l text k = do_error-IsDefined w s (expression text)
    execute-IsDefined expression op_return l text k = in_job-IsDefined w s _ λ _. s
    execute-IsDefined expression op_no_op l text k = s

settle-IsDefined : (o : Outcome) → IsDefined o → IsDefined (settle o)
unfolding settle
settle-IsDefined undefined h = h
settle-IsDefined (returns status w) h = if-elim IsSound (status == 0) (λ _. h) (λ _. tt)

module _ {F : Type 0} ⦃f : Float F⦄ where
  -- When every loop on the stack has a live source, and the line is not a BREAK or CONTINUE whose
  -- label is missing from the stack, `flowcontrol` returns, and every loop on the stack that it
  -- leaves has a live source again.
  pub flowcontrol-IsDefined :
      (expression : List ℕ → Evaluation F) (l : ℕ) (line : List ℕ) (w : Flow)
      → IsSound w
      → Lands l line w
      → IsDefined (flowcontrol expression l line w)
  unfolding flowcontrol
  flowcontrol-IsDefined expression l line w s k = elim (Option-cases (read_command line)) [
    | inl unknown ↦ rw (flowcontrol, unknown) s
    | inr ((c, text), known) ↦
        rw (flowcontrol, known)
          (settle-IsDefined (execute expression c l text w)
            (execute-IsDefined w s expression c l text (k c text known)))
  ]
