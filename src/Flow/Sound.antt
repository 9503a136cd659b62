-- ===== src/Flow/Sound.antt =====
-- Where a word of flow control is defined: which source a loop goes back to, and the label of a jump.
use fluid_edm.Base.{
  ℕ, zero, suc, ◌≡◌, refl, Bool, true, false, Option, none, some, List, [], ◌∷◌, ◌==◌, ◌||◌, arith,
  All, if-elim, Option-cases, Bool-cases, inl, inr,
}
use fluid_edm.Flow.{
  Command, op_continue, op_break, is_loop, is_if, is_branch, is_do, is_while, is_repeat, Entry,
  Flow, Outcome, undefined, returns, read_command, top_skip, is_active, is_live, source,
  with_context,
}
use fluid_edm.Flow.Words.{
  misplaced, in_job, rewind, turn_again, pull_to, do_else, do_endif, do_do, endrepeat_on, break_at,
  do_break,
}

-- the file of an entry is a live source
abbrev pub IsFile : List ℕ → Option ℕ → Type 0
IsFile js none = ⊥
IsFile js (some g) = is_live g js ≡ true

abbrev pub IsHeld : List ℕ → Entry → Type 0
IsHeld js t = is_loop t.operation ≡ true → IsFile js t.file

-- every loop on the stack goes back into a live source
abbrev pub IsSound : Flow → Type 0
IsSound w = All (IsHeld w.jobs) w.context

-- The call returns, and leaves a sound stack.
abbrev pub IsDefined : Outcome → Type 0
IsDefined undefined = ⊥
IsDefined (returns status w) = IsSound w

abbrev pub labelled : ℕ → List Entry → Bool
labelled l [] = false
labelled l (t ∷ rest) = l == t.o_label || labelled l rest

abbrev pub is_jump : Command → Bool
is_jump op_break = true
is_jump op_continue = true
is_jump _ = false

-- a jump has its label on the stack
abbrev pub Lands : ℕ → List ℕ → Flow → Type 0
Lands l line w =
    (c : Command) (text : List ℕ)
    → read_command line ≡ some (c, text)
    → is_jump c ≡ true
    → labelled l w.context ≡ true

pub same_live : (g : ℕ) (js : List ℕ) → is_live g (g ∷ js) ≡ true
same_live g js = ground arith

pub source-IsFile : (js : List ℕ) → is_active js ≡ true → IsFile js (source js)
source-IsFile [] h = cc
source-IsFile (g ∷ js) h = same_live g js

module _ (w : Flow) (s : IsSound w) where
  pub misplaced-IsDefined : IsDefined (misplaced w)
  misplaced-IsDefined = if-elim IsDefined (top_skip w.context) (λ _. s) (λ _. s)

  pub in_job-IsDefined :
      (r : Outcome) → (is_active w.jobs ≡ true → IsDefined r) → IsDefined (in_job w r)
  in_job-IsDefined r d = if-elim IsDefined (is_active w.jobs) d (λ _. s)

  pub rewind-IsDefined :
      (lines : Bool) (t : Entry) → IsFile w.jobs t.file → IsDefined (rewind lines t w)
  unfolding rewind
  rewind-IsDefined lines t h = elim (Option-cases t.file) [
    | inl null ↦ absurd (rw null at h)
    | inr (g, k) ↦ let live : is_live g w.jobs ≡ true = rw k at h in rw (rewind, k, live) s
  ]

  pub do_do-IsDefined : (l : ℕ) → IsDefined (do_do l w)
  unfolding do_do
  do_do-IsDefined l =
      in_job-IsDefined _
        λ a. if-elim IsDefined (top_skip w.context) (λ _. s) (λ _. (λ _. source-IsFile w.jobs a, s))

module _ (w : Flow) (t : Entry) (rest : List Entry) (h : IsHeld w.jobs t)
    (hs : All (IsHeld w.jobs) rest) where
  pub turn_again-IsDefined : (n : ℕ) → IsFile w.jobs t.file → IsDefined (turn_again n t rest w)
  unfolding turn_again
  turn_again-IsDefined zero k = hs
  turn_again-IsDefined (suc zero) k = hs
  turn_again-IsDefined (suc (suc n)) k =
      rewind-IsDefined (with_context w (record t { repeats = suc n } ∷ rest)) (h, hs) true t k

pub pull_to-labelled :
    (P : Entry → Type 0) (l : ℕ) (ts : List Entry)
    → labelled l ts ≡ true
    → All P ts
    → (t : Entry) × (rest : List Entry) × (pull_to l ts ≡ some (t ∷ rest))
      × ((l == t.o_label) ≡ true)
      × P t
      × All P rest
unfolding pull_to
pull_to-labelled P l [] h p = cc
pull_to-labelled P l (t ∷ rest) h (p, ps) = elim (Bool-cases (l == t.o_label)) [
  | inl found ↦ (t, rest, rw (pull_to, found) refl, found, p, ps)
  | inr other ↦
      let (u, below, e, k, q, qs) = pull_to-labelled P l rest (rw other at h) ps in
      (u, below, rw (pull_to, other, e) refl, k, q, qs)
]

pub repeat-loop : (c : Command) → is_repeat c ≡ true → is_loop c ≡ true
repeat-loop c h = ground (arith, h)

pub do-loop : (c : Command) → is_do c ≡ true → is_loop c ≡ true
do-loop c h = ground (arith, h)

pub while-loop : (c : Command) → is_while c ≡ true → is_loop c ≡ true
while-loop c h = ground (arith, h)

module _ (w : Flow) (s : IsSound w) where
  pub do_else-IsDefined :
      (l : ℕ) (ts : List Entry) → All (IsHeld w.jobs) ts → IsDefined (do_else l ts w)
  unfolding do_else
  do_else-IsDefined l [] _ = s
  do_else-IsDefined l (t ∷ rest) (h, hs) =
      if-elim IsDefined (is_if t.operation)
        (λ _.
          if-elim IsDefined (l == t.o_label)
            (λ _. (if-elim (IsHeld w.jobs) t.handled (λ _. h) (λ _ e. cc), hs)) (λ _. s))
        (λ _. misplaced-IsDefined w s)

  pub do_endif-IsDefined :
      (l : ℕ) (ts : List Entry) → All (IsHeld w.jobs) ts → IsDefined (do_endif l ts w)
  unfolding do_endif
  do_endif-IsDefined l [] _ = s
  do_endif-IsDefined l (t ∷ rest) (h, hs) =
      if-elim IsDefined (is_branch t.operation)
        (λ _. if-elim IsDefined (l == t.o_label) (λ _. hs) (λ _. s)) (λ _. misplaced-IsDefined w s)

  pub endrepeat_on-IsDefined :
      (l : ℕ) (ts : List Entry) → All (IsHeld w.jobs) ts → IsDefined (endrepeat_on l ts w)
  unfolding endrepeat_on
  endrepeat_on-IsDefined l [] _ = s
  endrepeat_on-IsDefined l (t ∷ rest) (h, hs) =
      if-elim IsDefined (is_repeat t.operation)
        (λ r.
          if-elim IsDefined (l == t.o_label)
            (λ _. turn_again-IsDefined w t rest h hs t.repeats (h (repeat-loop t.operation r)))
            (λ _. s))
        (λ _. misplaced-IsDefined w s)

  pub break_at-IsDefined :
      (l : ℕ) (t : Entry) (rest : List Entry)
      → IsHeld w.jobs t
      → All (IsHeld w.jobs) rest
      → IsDefined (break_at l (some (t ∷ rest)) w)
  unfolding break_at
  break_at-IsDefined l t rest h hs =
      if-elim IsDefined (is_loop t.operation)
        (λ _. if-elim IsDefined (l == t.o_label) (λ _. (h, hs)) (λ _. (h, hs))) (λ _. (h, hs))

  pub do_break-IsDefined : (l : ℕ) → labelled l w.context ≡ true → IsDefined (do_break l w)
  unfolding do_break
  do_break-IsDefined l k =
      let (t, rest, e, _, h, hs) = pull_to-labelled (IsHeld w.jobs) l w.context k s in
      in_job-IsDefined w s _ λ _.
        if-elim IsDefined (top_skip w.context) (λ _. s)
          (λ _. rw e (break_at-IsDefined l t rest h hs))
