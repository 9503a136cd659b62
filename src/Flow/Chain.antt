-- ===== src/Flow/Chain.antt =====
-- IF, ELSEIF and ELSE: which branch of a chain runs.
use fluid_edm.Base.{
  ℕ, zero, suc, ◌≡◌, refl, Bool, true, false, List, [], ◌∷◌, ◌==◌, arith, length, replicate,
  Bool-cases, if◌then◌else◌, inl, inr,
}
use fluid_edm.Base.Float.{Float}
use fluid_edm.Flow.{
  Command, op_if, op_elseif, is_if, is_branch, Entry, Flow, Outcome, undefined, returns, Evaluation,
  is_zero, with_context, new_entry, op_else, read_command, letters, top_skip,
}
use fluid_edm.Flow.Words.{unchanged, do_else, do_endif, settle}
use fluid_edm.Flow.Step.{do_if, try_branch, do_elseif, execute, flowcontrol}

-- "IF", "ELSEIF", "ELSE" and "ENDIF", with an empty condition
abbrev if_line : List ℕ
if_line = b'I' ∷ b'F' ∷ []

abbrev elseif_line : List ℕ
elseif_line = b'E' ∷ b'L' ∷ b'S' ∷ b'E' ∷ b'I' ∷ b'F' ∷ []

abbrev else_line : List ℕ
else_line = b'E' ∷ b'L' ∷ b'S' ∷ b'E' ∷ []

abbrev endif_line : List ℕ
endif_line = b'E' ∷ b'N' ∷ b'D' ∷ b'I' ∷ b'F' ∷ []

-- The flags `skip` that the lines of a chain leave, and the stack at its end.
abbrev pub Flags : Type 0
Flags = List Bool × List Entry

abbrev then_run : (Flow → Flags) → Outcome → Flags
then_run go_on undefined = ([], [])
then_run go_on (returns status w) =
    let (flags, stack) = go_on w in
    if status == 0 then (w.skip_blocks ∷ flags, stack) else ([], w.context)

abbrev stack_after : Outcome → Flags
stack_after undefined = ([], [])
stack_after (returns status w) = ([], w.context)

-- `n + 1` flags, all true but the one at index `k`
unfoldable pub all_but : ℕ → ℕ → List Bool
all_but zero n = false ∷ replicate n true
all_but (suc k) zero = true ∷ []
all_but (suc k) (suc n) = true ∷ all_but k n

pub same_refl : (n : ℕ) → (n == n) ≡ true
same_refl n = ground arith

if-branch : (c : Command) → is_if c ≡ true → is_branch c ≡ true
if-branch c h = ground arith

module _ (l : ℕ) (t : Entry) (rest : List Entry) (w : Flow) (e : (l == t.o_label) ≡ true) where
  else_done :
      is_if t.operation ≡ true
      → t.handled ≡ true
      → do_else l (t ∷ rest) w ≡ unchanged (with_context w (record t { skip = true } ∷ rest))
  unfolding do_else
  else_done o h = rw (o, e) (ground (arith, h))

  else_runs :
      is_if t.operation ≡ true
      → t.handled ≡ false
      → do_else l (t ∷ rest) w
        ≡ unchanged (with_context w (record t { skip = false; operation = op_else } ∷ rest))
  unfolding do_else
  else_runs o h = rw (o, e) (ground (arith, h))

  endif_pulls :
      is_branch t.operation ≡ true → do_endif l (t ∷ rest) w ≡ unchanged (with_context w rest)
  unfolding do_endif
  endif_pulls b = rw (b, e) refl

module _ {F : Type 0} ⦃f : Float F⦄ where
  -- `expression` on a line whose condition has the value `v`
  abbrev pub answer : F → List ℕ → Evaluation F
  answer v text = record { status = 0; value = v }

  -- how many values at the front are zero
  unfoldable pub first_true : List F → ℕ
  first_true [] = 0
  first_true (v ∷ vs) = let k = first_true vs in if is_zero v then suc k else 0

  unfoldable pub run_elseifs : ℕ → F → List F → Flow → Flags
  run_elseifs l z [] w =
      then_run (λ u. stack_after (flowcontrol (answer z) l endif_line u))
        (flowcontrol (answer z) l else_line w)
  run_elseifs l z (v ∷ vs) w =
      then_run (λ u. run_elseifs l z vs u) (flowcontrol (answer v) l elseif_line w)

  -- IF with the first value, ELSEIF with each of the others, ELSE, and after it ENDIF
  unfoldable pub run_chain : ℕ → F → List F → Flow → Flags
  run_chain l v vs w = then_run (run_elseifs l v vs) (flowcontrol (answer v) l if_line w)

  module _ (l : ℕ) (t : Entry) (rest : List Entry) (w : Flow) (e : (l == t.o_label) ≡ true) where
    elseif_done :
        (v : F)
        → is_if t.operation ≡ true
        → t.handled ≡ true
        → do_elseif (answer v []) l (t ∷ rest) w
          ≡ unchanged (with_context w (record t { skip = true } ∷ rest))
    unfolding do_elseif
    elseif_done v o h = rw (o, e) (ground (arith, h))

    elseif_false :
        (v : F)
        → is_if t.operation ≡ true
        → t.handled ≡ false
        → is_zero v ≡ true
        → do_elseif (answer v []) l (t ∷ rest) w
          ≡ unchanged (with_context w (record t { skip = true } ∷ rest))
    unfolding do_elseif try_branch
    elseif_false v o h z = rw (o, e) (ground (arith, h, z))

    elseif_true :
        (v : F)
        → is_if t.operation ≡ true
        → t.handled ≡ false
        → is_zero v ≡ false
        → do_elseif (answer v []) l (t ∷ rest) w
          ≡ unchanged (
              with_context w
                (record t { operation = op_elseif; skip = false; handled = true } ∷ rest))
    unfolding do_elseif try_branch
    elseif_true v o h z = rw (o, e) (ground (arith, h, z))

  rest_skipped :
      (l : ℕ) (z : F) (vs : List F) (w : Flow) (t : Entry) (rest : List Entry)
      → is_if t.operation ≡ true
      → (l == t.o_label) ≡ true
      → t.handled ≡ true
      → run_elseifs l z vs (with_context w (t ∷ rest)) ≡ (replicate (suc (length vs)) true, rest)
  unfolding run_elseifs flowcontrol execute settle read_command letters
  rest_skipped l z [] w t rest o e h =
      let t' = record t { skip = true } in
      let w' = record w { skip_blocks = true } in
      rw
        (
          else_done l t rest (with_context w (t ∷ rest)) e o h,
          flowcontrol,
          endif_pulls l t' rest (with_context w' (t' ∷ rest)) e (if-branch t.operation o),
        )
        refl
  rest_skipped l z (v ∷ vs) w t rest o e h =
      let t' = record t { skip = true } in
      let w' = record w { skip_blocks = true } in
      rw
        (
          elseif_done l t rest (with_context w (t ∷ rest)) e v o h,
          rest_skipped l z vs w' t' rest o e h,
        )
        refl

  elseifs_run :
      (l : ℕ) (z : F) (vs : List F) (w : Flow) (t : Entry) (rest : List Entry)
      → is_if t.operation ≡ true
      → (l == t.o_label) ≡ true
      → t.handled ≡ false
      → run_elseifs l z vs (with_context w (t ∷ rest)) ≡ (all_but (first_true vs) (length vs), rest)
  unfolding run_elseifs flowcontrol execute settle read_command letters first_true all_but
  elseifs_run l z [] w t rest o e h =
      let t' = record t { skip = false; operation = op_else } in
      let w' = record w { skip_blocks = false } in
      rw
        (
          else_runs l t rest (with_context w (t ∷ rest)) e o h,
          flowcontrol,
          endif_pulls l t' rest (with_context w' (t' ∷ rest)) e refl,
        )
        refl
  elseifs_run l z (v ∷ vs) w t rest o e h = elim (Bool-cases (is_zero v)) [
    | inl zeroes ↦
        let t' = record t { skip = true } in
        let w' = record w { skip_blocks = true } in
        rw
          (
            elseif_false l t rest (with_context w (t ∷ rest)) e v o h zeroes,
            elseifs_run l z vs w' t' rest o e h,
            zeroes,
          )
          refl
    | inr holds ↦
        let t' = record t { operation = op_elseif; skip = false; handled = true } in
        let w' = record w { skip_blocks = false } in
        rw
          (
            elseif_true l t rest (with_context w (t ∷ rest)) e v o h holds,
            rest_skipped l z vs w' t' rest refl e refl,
            holds,
          )
          refl
  ]

  -- Outside of a skipped block, the lines of a chain of IF, ELSEIFs and ELSE leave their `skip` flags
  -- so that exactly one branch runs: that of the first condition that is not zero, and ELSE when
  -- they are all zero. ENDIF leaves the stack as it was before IF.
  pub run_chain_lem :
      (l : ℕ) (v : F) (vs : List F) (w : Flow)
      → top_skip w.context ≡ false
      → run_chain l v vs w ≡ (all_but (first_true (v ∷ vs)) (suc (length vs)), w.context)
  unfolding run_chain flowcontrol execute settle read_command letters do_if first_true all_but
  run_chain_lem l v vs w k = elim (Bool-cases (is_zero v)) [
    | inl zeroes ↦
        let t = record (new_entry w l op_if true) { handled = false } in
        let w' = record w { skip_blocks = true } in
        rw (k, zeroes, elseifs_run l v vs w' t w.context refl (same_refl l) refl) refl
    | inr holds ↦
        let t = record (new_entry w l op_if false) { handled = true } in
        let w' = record w { skip_blocks = false } in
        rw (k, holds, rest_skipped l v vs w' t w.context refl (same_refl l) refl) refl
  ]
