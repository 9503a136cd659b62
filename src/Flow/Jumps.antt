-- ===== src/Flow/Jumps.antt =====
-- BREAK without its label on the stack, and a WHILE loop directly inside a DO loop.
use fluid_edm.Base.{
  ℕ, ◌≡◌, ◌↔◌, inl, inr, refl, true, false, none, some, List, [], ◌∷◌, ◌==◌, Bool-cases, if-elim,
  All,
}
use fluid_edm.Base.Float.{Float}
use fluid_edm.Flow.{
  op_do, op_break, is_loop, Entry, Flow, Outcome, undefined, returns, Evaluation, read_command,
  letters, top_skip, is_active, flow_control_syntax_error,
}
use fluid_edm.Flow.Words.{pull_to, break_at, do_break, settle}
use fluid_edm.Flow.Step.{while_on, end_do, do_while, endwhile_on, do_endwhile, execute, flowcontrol}
use fluid_edm.Flow.Chain.{answer}
use fluid_edm.Flow.Sound.{labelled, pull_to-labelled}

-- "WHILE" and "ENDWHILE"
abbrev pub while_line : List ℕ
while_line = b'W' ∷ b'H' ∷ b'I' ∷ b'L' ∷ b'E' ∷ []

abbrev pub endwhile_line : List ℕ
endwhile_line = b'E' ∷ b'N' ∷ b'D' ∷ b'W' ∷ b'H' ∷ b'I' ∷ b'L' ∷ b'E' ∷ []

abbrev Returns : Outcome → Type 0
Returns undefined = ⊥
Returns (returns status w) = Unit

pull_to_unlabelled : (l : ℕ) (ts : List Entry) → labelled l ts ≡ false → pull_to l ts ≡ none
unfolding pull_to
pull_to_unlabelled l [] h = refl
pull_to_unlabelled l (t ∷ rest) h = elim (Bool-cases (l == t.o_label)) [
  | inl found ↦ absurd (clash (rw found at h))
  | inr other ↦ rw (pull_to, other) (pull_to_unlabelled l rest (rw other at h))
]
  where
    clash : true ≡ false → ⊥
    clash e = cc

break_at-Returns :
    (l : ℕ) (t : Entry) (rest : List Entry) (w : Flow) → Returns (break_at l (some (t ∷ rest)) w)
unfolding break_at
break_at-Returns l t rest w =
    if-elim Returns (is_loop t.operation)
      (λ _. if-elim Returns (l == t.o_label) (λ _. tt) (λ _. tt)) (λ _. tt)

settle-Returns : (o : Outcome) → Returns o → Returns (settle o)
unfolding settle
settle-Returns undefined h = h
settle-Returns (returns status w) h = h

returned : (o : Outcome) → Returns o → o ≡ undefined → ⊥
returned undefined h e = h
returned (returns status w) h e = cc

everything : (l : ℕ) (ts : List Entry) → All {0, 0} (λ _. Unit) ts
everything l [] = tt
everything l (t ∷ rest) = (tt, everything l rest)

module _ {F : Type 0} ⦃f : Float F⦄ where
  -- When a job runs and no block is skipped, BREAK reads the top of an empty stack exactly when no
  -- entry of the stack has its label.
  pub break_undefined_iff :
      (expression : List ℕ → Evaluation F) (l : ℕ) (line text : List ℕ) (w : Flow)
      → read_command line ≡ some (op_break, text)
      → is_active w.jobs ≡ true
      → top_skip w.context ≡ false
      → (flowcontrol expression l line w ≡ undefined) ↔ (labelled l w.context ≡ false)
  unfolding flowcontrol execute do_break break_at settle
  break_undefined_iff expression l line text w k a s = (
    λ e. elim (Bool-cases (labelled l w.context)) [
      | inl found ↦
          let (t, rest, p, _, _, _) =
            pull_to-labelled (λ _. Unit) l w.context found (everything l w.context) in
          absurd (
            returned _
              (rw (flowcontrol, k, do_break, a, s, p)
                (settle-Returns _ (break_at-Returns l t rest w)))
              e)
      | inr missing ↦ missing
    ],
    λ missing.
        rw (flowcontrol, k, do_break, a, s, pull_to_unlabelled l w.context missing, break_at) refl,
  )

  -- In a running job whose innermost block is a DO loop that is neither skipped nor broken off, a
  -- WHILE with another label pushes nothing, and the ENDWHILE that closes it is refused: it clears
  -- the whole stack.
  pub while_inside_do :
      (v : F) (l : ℕ) (w : Flow) (t : Entry) (rest : List Entry)
      → w.context ≡ t ∷ rest
      → t.operation ≡ op_do
      → t.brk ≡ false
      → t.skip ≡ false
      → (l == t.o_label) ≡ false
      → is_active w.jobs ≡ true
      → (flowcontrol (answer v) l while_line w ≡ returns 0 (record w { skip_blocks = false }))
        × (flowcontrol (answer v) l endwhile_line (record w { skip_blocks = false })
            ≡ returns flow_control_syntax_error (record w { context = []; skip_blocks = false }))
  unfolding flowcontrol execute do_while while_on end_do do_endwhile endwhile_on settle read_command
      letters
  while_inside_do v l w t rest k o b s d a = (rw (k, a, b, s, o, d) refl, rw (k, a, o, s) refl)
