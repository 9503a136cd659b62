-- ===== src/Diel/CanLink/Session.antt =====
-- What the dielectric link keeps, and how it shares the bus with the power supply's link.
use fluid_edm.Base.{
  ◌≤◌, ◌<◌, ◌≡◌, [], ◌∷◌, arith, length, length-append, length-drop, drop, ◌⊎◌, inl, inr, ltb,
  Bool-cases, Option-cases,
}
use fluid_edm.Wire.Frame.{CanFrame}
use fluid_edm.Psu.CanLink.{CanPsuLink, on_frame, event_of}
use fluid_edm.Diel.Codec.{decode_diel_fault}
use fluid_edm.Diel.CanLink.{CanDielLink, on_diel_frame, max_diel_events}

-- Of the two links that listen on one bus none takes a frame of the other's protocol: below the
-- identifier 0x700 the dielectric link does not change, and from there on the power supply's link
-- does not change.
pub frame_isolation :
    (p : CanPsuLink) (d : CanDielLink) (f : CanFrame)
    → (f.id < 0x700) × (on_diel_frame d f ≡ d) ⊎ (0x700 ≤ f.id) × (on_frame p f ≡ p)
unfolding on_frame on_diel_frame event_of
frame_isolation p d f = elim (Bool-cases (ltb f.id 0x700)) [
  | inl low ↦ inl (ground arith, ground arith)
  | inr high ↦ inr (ground arith, ground arith)
]

-- Whatever frame arrives, a fault queue of at most 16 entries stays at most 16.
pub on_diel_frame_bound :
    (l : CanDielLink) (f : CanFrame)
    → length l.events ≤ max_diel_events
    → length (on_diel_frame l f).events ≤ max_diel_events
unfolding on_diel_frame
on_diel_frame_bound l f h = elim (Option-cases (decode_diel_fault f)) [
  | inl bad ↦ ground arith
  | inr (e, good) ↦ ground (
    arith,
    length-append l.events (e ∷ []),
    length-append (drop 1 l.events) (e ∷ []),
    length-drop 1 l.events,
  )
]
