-- ===== src/Psu/CanLink/Queue.antt =====
-- The event queue of the link against the history of frames: it holds the latest events that were
-- not yet taken, at most 32, and drops the oldest.
use fluid_edm.Base.{
  ℕ, zero, suc, ◌-◌, ◌≤◌, ◌<◌, ◌≡◌, refl, ap, sym, ◌∙◌, inl, inr, Option, none, some, List, [], ◌∷◌,
  ◌++◌, arith, length, drop, length-append, length-drop, leb, Bool-cases, leb→le, le→leb, true,
  Option-cases,
}
use mathlib.Core.List.{append_assoc, append-nil}
use fluid_edm.Wire.Frame.{CanFrame}
use fluid_edm.Psu.Link.{Event}
use fluid_edm.Psu.CanLink.{
  CanPsuLink, CanBus, new_link, push_event, event_of, take_event, on_frame, max_events,
}

-- The last n elements.
abbrev pub last_n {ℓ} : {A : Type ℓ} → ℕ → List A → List A
last_n n xs = drop (length xs - n) xs

module _ {ℓ} {A : Type ℓ} where
  drop-append : (k : ℕ) (xs ys : List A) → k ≤ length xs → drop k (xs ++ ys) ≡ drop k xs ++ ys
  drop-append zero xs ys h = refl
  drop-append (suc k) [] ys h = elim h [ ]
  drop-append (suc k) (x ∷ xs) ys h = drop-append k xs ys (omega arith)

  drop-drop : (k : ℕ) (xs : List A) → drop 1 (drop k xs) ≡ drop (suc k) xs
  drop-drop zero [] = refl
  drop-drop zero (x ∷ xs) = refl
  drop-drop (suc k) [] = refl
  drop-drop (suc k) (x ∷ xs) = drop-drop k xs

  -- Pushing onto the last `cap` elements of a history gives the last `cap` of the longer history.
  pub push_event-last_n :
      (cap : ℕ) (h : List A) (e : A)
      → 0 < cap
      → push_event (last_n cap h) cap e ≡ last_n cap (h ++ (e ∷ []))
  unfolding push_event
  push_event-last_n cap h e pos = elim (Bool-cases (leb cap (length h))) [
    | inl full ↦
        let room : leb cap (length (last_n cap h)) ≡ true =
          le→leb _ _ (omega (arith, leb→le cap (length h) full, length-drop (length h - cap) h)) in
        let next : suc (length h - cap) ≡ length (h ++ (e ∷ [])) - cap =
          omega (arith, leb→le cap (length h) full, length-append h (e ∷ [])) in
        let kept =
          drop-append (suc (length h - cap)) h (e ∷ [])
            (omega (arith, leb→le cap (length h) full)) in
        rw (room, ← next) (ap (λ q. q ++ (e ∷ [])) (drop-drop (length h - cap) h) ∙ sym kept)
    | inr short ↦
        let none_lost : length h - cap ≡ 0 = ground (arith, short) in
        let none_lost' : length (h ++ (e ∷ [])) - cap ≡ 0 =
          ground (arith, short, length-append h (e ∷ [])) in
        rw (none_lost, none_lost', short)
  ]

  pub length-push_event :
      (q : List A) (cap : ℕ) (e : A) → 0 < cap → length q ≤ cap → length (push_event q cap e) ≤ cap
  unfolding push_event
  length-push_event q cap e pos fits =
      ground (arith, length-append (drop 1 q) (e ∷ []), length-append q (e ∷ []), length-drop 1 q)

abbrev before : Option Event → List Event → List Event
before none es = es
before (some e) es = e ∷ es

-- The events that a sequence of frames carries, in order.
pub events_of : List CanFrame → List Event
events_of [] = []
events_of (f ∷ fs) = before (event_of f) (events_of fs)

-- The link after a sequence of received frames.
pub receive : CanPsuLink → List CanFrame → CanPsuLink
receive l [] = l
receive l (f ∷ fs) = receive (on_frame l f) fs

-- The four frames that the switch stores elsewhere carry no event.
events-on_frame :
    (l : CanPsuLink) (f : CanFrame) → (on_frame l f).events ≡ (take_event l (event_of f)).events
unfolding on_frame event_of
events-on_frame l f = ground arith

receive-last_n :
    (l : CanPsuLink) (h : List Event) (fs : List CanFrame)
    → l.events ≡ last_n max_events h
    → (receive l fs).events ≡ last_n max_events (h ++ events_of fs)
unfolding receive events_of
receive-last_n l h [] e = rw append-nil e
receive-last_n l h (f ∷ fs) e = elim (Option-cases (event_of f)) [
  | inl quiet ↦ rw quiet (receive-last_n (on_frame l f) h fs (rw (events-on_frame l f, quiet) e))
  | inr (x, carried) ↦
      rw (carried, ← append_assoc h (x ∷ []) (events_of fs))
        (receive-last_n (on_frame l f) (h ++ (x ∷ [])) fs
          (rw (events-on_frame l f, carried) (queued x)))
]
  where
    queued : (x : Event) → push_event l.events max_events x ≡ last_n max_events (h ++ (x ∷ []))
    queued x = rw e (push_event-last_n max_events h x (omega arith))

-- After any frames a new link queues the latest 32 events that they carry, in the order of arrival.
pub receive-new_link :
    (b : CanBus) (fs : List CanFrame)
    → (receive (new_link b) fs).events ≡ last_n max_events (events_of fs)
unfolding new_link
receive-new_link b fs = receive-last_n (new_link b) [] fs refl
