-- ===== src/Motion/EdmMotion/Turns.antt =====
-- One turn of the loop of `runContour`: the line that it is due to queue, and how it ends.
use fluid_edm.Base.{
  ℕ, ◌≡◌, refl, sym, ap, ◌∙◌, Bool, true, false, not, ◌&&◌, List, [], ◌∷◌, ◌++◌, arith, if-elim,
  if◌then◌else◌, if_false,
}
use mathlib.Core.Path.{subst}
use mathlib.Core.List.{append_assoc, append-nil}
use fluid_edm.Base.Int.{ℤ, pos, leb_ℤ}
use fluid_edm.Base.Float.{Float}
use fluid_edm.Motion.Pose4.{Cmath}
use fluid_edm.Motion.ContourBuffer.{ContourBuffer}
use fluid_edm.Motion.PathSampler.{
  SamplerState, Direction, direction_of, ramp, time_step, SampleResult, Emit, emit_none,
  emit_advance, emit_retract, sample, flush, advance,
}
use fluid_edm.Motion.EdmMotion.{
  soft_limit, abort_cycle, PlanLine, Effect, request_stop, send_alarm, synchronize, buffer_line,
  Pass, Waited, room, stopped, waiting, Turn, again, leave, stuck, is_faulted, is_idle_state,
  wait_room, line_of, settle_pass, submit_after, emit_pass, turn, elapsed, default_sampler,
}

if_true {ℓ} : {A : Type ℓ} (b : Bool) (x y : A) → b ≡ true → (if b then x else y) ≡ x
if_true true x y h = refl
if_true false x y h = cc

module _ {F : Type 0} where
  -- the effects of queueing lines, in order
  abbrev pub queue_all : List (PlanLine F) → List (Effect F)
  queue_all [] = []
  queue_all (l ∷ ls) = buffer_line l ∷ queue_all ls

  pub queue_all-append :
      (xs ys : List (PlanLine F)) → queue_all (xs ++ ys) ≡ queue_all xs ++ queue_all ys
  queue_all-append [] ys = refl
  queue_all-append (x ∷ xs) ys =
      ap (λ (es : List (Effect F)). buffer_line x ∷ es) (queue_all-append xs ys)

  -- The ways to give up: the process is asked to stop, after a refused line with an alarm, or the queued
  -- motion is waited for, after a fault with an alarm.
  pub data GivesUp : List (Effect F) → Type 0 where
    aborted : GivesUp (request_stop ∷ [])
    refused : GivesUp (request_stop ∷ send_alarm soft_limit ∷ [])
    faulted : GivesUp (synchronize ∷ send_alarm abort_cycle ∷ [])
    ended : GivesUp (synchronize ∷ [])

  -- The effects queue the first of the lines, and then are those of `ending`.
  pub record Queues (lines : List (PlanLine F)) (effects ending : List (Effect F)) : Type 0 where
    pub queued : List (PlanLine F)
    pub later : List (PlanLine F)
    pub in_order : queued ++ later ≡ lines
    pub done_first : effects ≡ queue_all queued ++ ending

  pub unqueued : (lines : List (PlanLine F)) (ending : List (Effect F)) → Queues lines ending ending
  unqueued lines ending = record { queued = []; later = lines; in_order = refl; done_first = refl }

  pub none_queued : (lines : List (PlanLine F)) → Queues lines [] []
  none_queued lines = unqueued lines []

  pub queued_then :
      (xs ys : List (PlanLine F)) (effects more ending : List (Effect F))
      → effects ≡ queue_all xs
      → more ≡ queue_all ys ++ ending
      → effects ++ more ≡ queue_all (xs ++ ys) ++ ending
  queued_then xs ys effects more ending e h =
      rw (e, h, queue_all-append xs ys) (sym (append_assoc (queue_all xs) (queue_all ys) ending))

-- the line of a sample, if it has one
abbrev pub sample_line :
    {F : Type 0} ⦃f : Float F⦄ → Pass F → SampleResult F → Emit → List (PlanLine F)
sample_line p r emit_none = []
sample_line p r emit_advance = line_of r p.mpos ∷ []
sample_line p r emit_retract = line_of r p.mpos ∷ []

-- `rest` gives the lines that are due after a pass, from its state and its clock.
module _ {F : Type 0} ⦃f : Float F⦄ (rest : SamplerState F → ℕ → List (PlanLine F)) where
  -- what holds of a turn, by its end, where `lines` are due from its pass on
  abbrev pub Fair : List (PlanLine F) → Turn F → Type 0
  Fair lines (again st now effects) =
      (own : List (PlanLine F)) × (effects ≡ queue_all own)
      × (st.done ≡ false)
      × (own ++ rest st now ≡ lines)
  Fair lines (leave st effects true) =
      (effects ≡ queue_all lines ++ (synchronize ∷ [])) × (st.done ≡ true)
  Fair lines (leave st effects false) = GivesUp effects
  Fair lines stuck = Unit

  -- the lines that are due after a sample
  abbrev pub after_sample : SamplerState F → Pass F → List (PlanLine F)
  after_sample st p = if st.done then [] else rest st p.now

  settle_pass-Fair :
      (p : Pass F) (st : SamplerState F) (r : SampleResult F) (own : List (PlanLine F))
      → st.done ≡ (r.block_done && leb_ℤ (pos 0) p.v)
      → Fair (own ++ after_sample st p) (settle_pass p st r (queue_all own))
  unfolding settle_pass
  settle_pass-Fair p st r own done =
      if-elim (Fair (own ++ after_sample st p)) (r.block_done && leb_ℤ (pos 0) p.v)
        (λ arrived. (
          ap (λ (ls : List (PlanLine F)). queue_all ls ++ (synchronize ∷ []))
              (sym (append-nil own)
                ∙ ap (λ (ls : List (PlanLine F)). own ++ ls)
                    (sym (if_true st.done [] (rest st p.now) (done ∙ arrived)))),
          done ∙ arrived,
        ))
        (λ under_way. (
          own,
          refl,
          done ∙ under_way,
          ap (λ (ls : List (PlanLine F)). own ++ ls)
              (sym (if_false st.done [] (rest st p.now) (done ∙ under_way))),
        ))

  submit_after-Fair :
      (w : Waited) (p : Pass F) (st : SamplerState F) (r : SampleResult F)
      → st.done ≡ (r.block_done && leb_ℤ (pos 0) p.v)
      → Fair (line_of r p.mpos ∷ after_sample st p) (submit_after w p st r)
  unfolding submit_after
  submit_after-Fair waiting p st r done = tt
  submit_after-Fair stopped p st r done = aborted
  submit_after-Fair room p st r done =
      if-elim (Fair (line_of r p.mpos ∷ after_sample st p)) p.accepted
        (λ taken. settle_pass-Fair p st r (line_of r p.mpos ∷ []) done) (λ no_line. refused)

  emit_pass-Fair :
      (blocks : ℕ) (p : Pass F) (st : SamplerState F) (r : SampleResult F) (emit : Emit)
      → st.done ≡ (r.block_done && leb_ℤ (pos 0) p.v)
      → Fair (sample_line p r emit ++ after_sample st p) (emit_pass blocks p st r emit)
  unfolding emit_pass
  emit_pass-Fair blocks p st r emit_none done = settle_pass-Fair p st r [] done
  emit_pass-Fair blocks p st r emit_advance done =
      submit_after-Fair (wait_room blocks p.polls) p st r done
  emit_pass-Fair blocks p st r emit_retract done =
      submit_after-Fair (wait_room blocks p.polls) p st r done

module _ {F : Type 0} ⦃f : Float F⦄ ⦃m : Cmath F⦄ (contour : ContourBuffer F) (blocks : ℕ) where
  advance-arrival :
      (st : SamplerState F) (v : ℤ) (ds : F) (dir : Direction)
      → st.done ≡ false
      → let (next, r) = advance contour default_sampler st v ds dir in
        next.done ≡ (r.block_done && leb_ℤ (pos 0) v)
  unfolding advance
  advance-arrival st v ds dir h = ground arith

  -- A sample is done when it reports the end of the contour at a velocity that is not negative.
  sample-arrival :
      (st : SamplerState F) (v : ℤ) (dt : F)
      → st.done ≡ false
      → let (next, r) = sample contour default_sampler st v dt in
        next.done ≡ (r.block_done && leb_ℤ (pos 0) v)
  unfolding sample flush
  sample-arrival st v dt h =
      let now = ramp contour default_sampler st v dt in
      let ds = f.mul now (time_step contour default_sampler dt) in
      ground (
        arith,
        advance-arrival (record st { v_mm_s = now }) v ds (direction_of contour default_sampler ds),
      )

  -- The lines that are due: each pass in which the machine runs takes a sample, up to the one that is
  -- done, and each sample gives its line. The clock goes on in every pass.
  abbrev pub due_lines : SamplerState F → ℕ → List (Pass F) → List (PlanLine F)
  due_lines st prev [] = []
  due_lines st prev (p ∷ ps) =
      let (next, r) = sample contour default_sampler st p.v (elapsed prev p.now) in
      let held = due_lines st p.now ps in
      let later = due_lines next p.now ps in
      if not p.running then held else sample_line p r r.emit ++ (if next.done then [] else later)

  pub turn-Fair :
      (st : SamplerState F) (prev : ℕ) (p : Pass F) (ps : List (Pass F))
      → st.done ≡ false
      → Fair
          (λ next now. due_lines next now ps)
          (due_lines st prev (p ∷ ps))
          (turn contour blocks st prev p)
  unfolding turn
  turn-Fair st prev p ps h =
      let rest : SamplerState F → ℕ → List (PlanLine F) = λ next now. due_lines next now ps in
      let (next, r) = sample contour default_sampler st p.v (elapsed prev p.now) in
      let lines = due_lines st prev (p ∷ ps) in
      let own = sample_line p r r.emit ++ after_sample rest next p in
      if-elim (Fair rest lines) p.abort (λ abort. aborted)
        (λ live.
          if-elim (Fair rest lines) p.alarm (λ alarm. aborted)
            (λ calm.
              if-elim (Fair rest lines) (is_faulted p.es) (λ bad. faulted)
                (λ sound.
                  if-elim (Fair rest lines) (is_idle_state p.es) (λ idle. ended)
                    (λ busy.
                      if-elim (Fair rest lines) (not p.running)
                        (λ held.
                          ([], refl, h, sym (if_true (not p.running) (rest st p.now) own held)))
                        (λ running.
                          subst
                            (λ (ls : List (PlanLine F)).
                              Fair rest ls (emit_pass blocks p next r r.emit))
                            (sym (if_false (not p.running) (rest st p.now) own running))
                            (emit_pass-Fair rest blocks p next r r.emit
                              (sample-arrival st p.v (elapsed prev p.now) h)))))))
