-- ===== src/Flow/Jobs.antt =====
-- Job.cpp: the stack of job sources, and `unwind_stack` of Flowcontrol.cpp, which no code calls when a
-- job ends. A channel and a source are numbers; opening and closing the files themselves is left out.
use fluid_edm.Base.{
  ℕ, ◌≡◌, ◌∙◌, ap, refl, Bool, true, false, Option, none, some, List, [], ◌∷◌, ◌==◌, arith,
  if◌then◌else◌, if_false,
}
use fluid_edm.Base.Float.{Float}
use fluid_edm.Flow.{
  op_do, is_do, Entry, Flow, Outcome, undefined, is_zero, read_command, letters, is_active, is_live,
  with_context,
}
use fluid_edm.Flow.Words.{rewind, settle}
use fluid_edm.Flow.Step.{while_on, end_do, do_while, execute, flowcontrol}
use fluid_edm.Flow.Chain.{answer, same_refl}
use fluid_edm.Flow.Jumps.{while_line}

pub record JobStack : Type 0 where
  pub job : List ℕ
  pub leader : Option ℕ

-- `nest`, with the number of the new source
unfoldable pub nest : JobStack → ℕ → Option ℕ → JobStack
nest s f none = record s { job = f ∷ s.job }
nest s f (some out_channel) = record {
  job = f ∷ s.job;
  leader = if is_active s.job then s.leader else some out_channel;
}

abbrev pub pop_job : List ℕ → List ℕ
pop_job [] = []
pop_job (f ∷ fs) = fs

-- `pop`, where a source is active
unfoldable pub pop : JobStack → JobStack
pop s = record {
  job = pop_job s.job;
  leader = if is_active (pop_job s.job) then s.leader else none;
}

unfoldable pub unnest : JobStack → JobStack
unnest s = if is_active s.job then pop s else s

unfoldable pub abort : JobStack → JobStack
abort s = record { job = []; leader = if is_active s.job then none else s.leader }

abbrev pub same_file : Option ℕ → Option ℕ → Bool
same_file none none = true
same_file (some f) (some g) = f == g
same_file _ _ = false

abbrev pub drop_file : Option ℕ → List Entry → List Entry
drop_file f [] = []
drop_file f (t ∷ rest) =
    let below = drop_file f rest in if same_file t.file f then below else t ∷ rest

-- `unwind_stack`
unfoldable pub unwind_stack : List Entry → List Entry
unwind_stack [] = []
unwind_stack (t ∷ rest) = drop_file t.file (t ∷ rest)

-- the job on top ends, and the job of a new source begins
unfoldable pub next_job : Flow → Option ℕ → ℕ → Option ℕ → Flow
next_job w leader g out_channel = record w {
  jobs = (nest (unnest (record { job = w.jobs; leader = leader })) g out_channel).job;
}

other_source :
    (f g : ℕ) (js : List ℕ) → (f == g) ≡ false → is_live f js ≡ false → is_live f (g ∷ js) ≡ false
other_source f g js e h = ground (arith, e, h)

nest-job : (s : JobStack) (g : ℕ) (o : Option ℕ) → (nest s g o).job ≡ g ∷ s.job
unfolding nest
nest-job s g none = refl
nest-job s g (some c) = refl

unnest-job : (s : JobStack) (f : ℕ) (js : List ℕ) → s.job ≡ f ∷ js → (unnest s).job ≡ js
unfolding unnest pop
unnest-job s f js e = rw (unnest, pop, e) refl

next_job-jobs :
    (w : Flow) (f g : ℕ) (js : List ℕ) (leader o : Option ℕ)
    → w.jobs ≡ f ∷ js
    → (next_job w leader g o).jobs ≡ g ∷ js
unfolding next_job
next_job-jobs w f g js leader o e =
    let s : JobStack = record { job = w.jobs; leader = leader } in
    nest-job (unnest s) g o ∙ ap (λ x. g ∷ x) (unnest-job s f js e)

next_job-context :
    (w : Flow) (leader : Option ℕ) (g : ℕ) (o : Option ℕ)
    → (next_job w leader g o).context ≡ w.context
unfolding next_job
next_job-context w leader g o = refl

if_true : (b : Bool) (x y : Outcome) → b ≡ true → (if b then x else y) ≡ x
if_true true x y h = refl
if_true false x y h = cc

rewind_stale :
    (t : Entry) (w : Flow) (f : ℕ)
    → t.file ≡ some f
    → is_live f w.jobs ≡ false
    → rewind true t w ≡ undefined
unfolding rewind
rewind_stale t w f e h = rw (rewind, e, h) refl

module _ {F : Type 0} ⦃fl : Float F⦄ where
  end_do_stale :
      (v : F) (t : Entry) (rest : List Entry) (w : Flow) (f : ℕ)
      → t.file ≡ some f
      → is_live f w.jobs ≡ false
      → is_zero v ≡ false
      → end_do (answer v []) t.o_label t rest w ≡ undefined
  unfolding end_do
  end_do_stale v t rest w f e h z = rw (same_refl t.o_label, z) (rewind_stale t w f e h)

  while_on_stale :
      (v : F) (t : Entry) (rest : List Entry) (w : Flow) (f : ℕ)
      → is_do t.operation ≡ true
      → t.brk ≡ false
      → t.skip ≡ false
      → t.file ≡ some f
      → is_live f w.jobs ≡ false
      → is_zero v ≡ false
      → while_on (answer v []) t.o_label [] (t ∷ rest) w ≡ undefined
  unfolding while_on
  while_on_stale v t rest w f d b s e h z =
      if_false t.brk _ _ b
      ∙ (if_false t.skip _ _ s
          ∙ (if_true (is_do t.operation) _ _ d ∙ end_do_stale v t rest w f e h z))

  -- A DO loop that is still open when its file ends stays on the stack: in the job that follows, the
  -- WHILE that closes the loop, with a condition that holds, goes back into the deleted source.
  pub next_job_stale :
      (v : F) (w : Flow) (t : Entry) (rest : List Entry) (f g : ℕ) (js : List ℕ)
      (leader o : Option ℕ)
      → w.context ≡ t ∷ rest
      → w.jobs ≡ f ∷ js
      → t.operation ≡ op_do
      → t.brk ≡ false
      → t.skip ≡ false
      → t.file ≡ some f
      → (f == g) ≡ false
      → is_live f js ≡ false
      → is_zero v ≡ false
      → flowcontrol (answer v) t.o_label while_line (next_job w leader g o) ≡ undefined
  unfolding flowcontrol execute do_while while_on settle read_command letters
  next_job_stale v w t rest f g js leader o k e d b s file other gone z =
      let u = next_job w leader g o in
      let jobs : u.jobs ≡ g ∷ js = next_job-jobs w f g js leader o e in
      let context : u.context ≡ t ∷ rest = next_job-context w leader g o ∙ k in
      let active : is_active u.jobs ≡ true = rw jobs refl in
      let dead : is_live f u.jobs ≡ false = rw jobs (other_source f g js other gone) in
      let stale =
        while_on_stale v t rest (with_context u (t ∷ rest)) f (rw d refl) b s file dead z in
      rw (active, context, stale) refl
